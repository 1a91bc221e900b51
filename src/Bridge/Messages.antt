-- ===== src/Bridge/Messages.antt =====
-- The messages of a configuration connection: the loop of `getConfig` in bridge/bridge.go, with
-- `GetConfigInfo` and `GetHostInfo` of lib/conn/conn.go.
use next_nps.File.{Client, Tunnel, Host, new_flow}
use next_nps.Db.{
  Db, DbError, get_task_id, get_host_id, get_client_id_by_vkey, has_host, is_host_exist,
  new_client_entry, new_host_entry,
}
use next_nps.Db.Hosts.{new_host_entry_tasks}
use next_nps.Db.Draws.{new_client_entry_tasks}
use next_nps.Db.Secrets.{TasksInv}
use next_nps.Wire.{seq}
use next_nps.Bridge.Config.{
  ConfigEffect, add_ok, add_fail, write_key, write_status, new_empty_session, Next, go_on, broken,
  panicked, config_task, config_task-TasksInv, same_tasks,
}
use next_nps.Base.{
  if◌then◌else◌, ◌==◌, if_both, Bytes, codes, filter_values, ◌≡◌, refl, Bool, true, false, ◌&&◌,
  Option, none, some, List, [], ◌∷◌, ◌++◌, map, nat_eq, bytes_eq,
}
use next_nps.Base.Int.{ℤ, ℤ_eq}

-- A flag with what is read behind it; `none` is a read that fails, or a text that is no record. The
-- draws are those of a new client's key; with a tunnel stands whether it has a target.
pub data ConfigMessage : Type 0 where
  status_flag : Option Bytes → ConfigMessage
  conf_flag : Option Client → List Bytes → ConfigMessage
  host_flag : Option Host → ConfigMessage
  task_flag : Option (Tunnel × Bool) → ConfigMessage
  other_flag : ConfigMessage

-- The tables, the client of the connection, what was written, and how the message ends. `closed` is
-- a `break loop` without a failure.
pub data End : Type 0 where
  next : Next → End
  closed : End

pub record ConfigState : Type 0 where
  pub db : Db
  pub client : Client
  pub effects : List ConfigEffect
  pub end : End

abbrev result : Db → Client → List ConfigEffect → End → ConfigState
result db client es end = record { db = db; client = client; effects = es; end = end }

-- The remarks of the hosts and of the running tunnels of a client.
remarks : List Bytes → Bytes
remarks [] = []
remarks (r ∷ rs) = r ++ (seq ++ remarks rs)

-- Of the running tunnels, by the keys of the run list.
status_text : Db → (ℤ → Bool) → ℤ → Bytes
status_text db running id =
    remarks (map (λ (h : Host). h.remark) (filter_values (λ (h : Host). h.client == id) db.hosts))
    ++ remarks (
        map (λ (t : Tunnel). t.remark)
          (filter_values (λ (t : Tunnel). running t.id && t.client == id) db.tasks))

module _ (md5 : Bytes → Bytes) (running : ℤ → Bool) (port_free : ℤ → Bytes → Bool) where
  status_of : Db → Client → Option ℤ → ConfigState
  status_of db client none = result db client [] closed
  status_of db client (some id) =
      result db client (write_status (status_text db running id) ∷ []) (next go_on)

  on_status : Db → Client → Option Bytes → ConfigState
  on_status db client none = result db client [] closed
  on_status db client (some key) = status_of db client (get_client_id_by_vkey md5 db key)

  or_new_flow : Client → Client
  or_new_flow c = elim c.flow [ none ↦ record c { flow = some new_flow } | some f ↦ c ]

  after_client : Db × Client × Option DbError → ConfigState
  after_client (db, c, some e) = result db c (add_fail ∷ []) (next broken)
  after_client (db, c, none) =
      result db c (add_ok ∷ write_key c.verify_key ∷ new_empty_session c.id ∷ []) (next go_on)

  -- The record is written to before the error is looked at, which panics where it is nil.
  on_conf : Db → Client → Option Client → List Bytes → ConfigState
  on_conf db client none draws = result db client [] (next panicked)
  on_conf db client (some c) draws = after_client (
      new_client_entry db
        (or_new_flow (record c { no_store = true; status = true; no_display = false })) draws)

  abbrev located : Host → Host
  located h = if h.location == [] then record h { location = codes "/" } else h

  -- The error of `NewHost` is dropped.
  add_new_host : Db → Client → Host → ConfigState
  add_new_host db client h =
      if has_host db client h
      then result db client (add_ok ∷ []) (next go_on)
      else if is_host_exist db h
      then result db client (add_fail ∷ []) (next broken)
      else result (new_host_entry db h).0 client (add_ok ∷ []) (next go_on)

  on_host : Db → Client → Option Host → ConfigState
  on_host db client none = result db client [] (next panicked)
  on_host db client (some h) =
      let (db', id) = get_host_id db in
      add_new_host db' client
        (located (record h { id = id; flow = new_flow; no_store = true; client = client.id }))

  -- The id is drawn ahead of the error; a description without a target is a nil dereference.
  on_task : Db → Client → Option (Tunnel × Bool) → ConfigState
  unfolding get_task_id
  on_task db client none = result db client [] (next panicked)
  on_task db client (some (t, false)) = result (get_task_id db).0 client [] (next panicked)
  on_task db client (some (t, true)) =
      let (db', es, n) = config_task port_free client t db in result db' client es (next n)

  pub config_message : Db → Client → ConfigMessage → ConfigState
  config_message db client (status_flag key) = on_status db client key
  config_message db client (conf_flag c draws) = on_conf db client c draws
  config_message db client (host_flag h) = on_host db client h
  config_message db client (task_flag t) = on_task db client t
  config_message db client other_flag = result db client [] (next go_on)

  abbrev before : List ConfigEffect → ConfigState → ConfigState
  before es s = record s { effects = es ++ s.effects }

  and_messages : End → ConfigState → (Db → Client → ConfigState) → ConfigState
  and_messages (next go_on) s f = before s.effects (f s.db s.client)
  and_messages e s f = s

  -- The loop, over the messages that come; a flag that cannot be read ends it. Then the connection
  -- is closed, and where the end is `next broken` the client's session is dropped.
  pub config_loop : Db → Client → List ConfigMessage → ConfigState
  config_loop db client [] = result db client [] closed
  config_loop db client (m ∷ ms) =
      let s = config_message db client m in and_messages s.end s (λ db' c. config_loop db' c ms)

  KeepsTasks : Db → ConfigState → Type 0
  KeepsTasks db s = s.db.tasks ≡ db.tasks

  status_of_tasks :
      (db : Db) (client : Client) (o : Option ℤ) → KeepsTasks db (status_of db client o)
  unfolding KeepsTasks status_of
  status_of_tasks db client none = refl
  status_of_tasks db client (some id) = refl

  on_status_tasks :
      (db : Db) (client : Client) (o : Option Bytes) → KeepsTasks db (on_status db client o)
  unfolding KeepsTasks on_status
  on_status_tasks db client none = refl
  on_status_tasks db client (some key) = status_of_tasks db client _

  after_client_tasks :
      (db : Db) (r : Db × Client × Option DbError)
      → r.0.tasks ≡ db.tasks
      → KeepsTasks db (after_client r)
  unfolding KeepsTasks after_client
  after_client_tasks db (db', c, some e) h = h
  after_client_tasks db (db', c, none) h = h

  on_conf_tasks :
      (db : Db) (client : Client) (o : Option Client) (draws : List Bytes)
      → KeepsTasks db (on_conf db client o draws)
  unfolding KeepsTasks on_conf
  on_conf_tasks db client none draws = refl
  on_conf_tasks db client (some c) draws =
      after_client_tasks db _ (new_client_entry_tasks db _ draws)

  add_new_host_tasks :
      (db : Db) (client : Client) (h : Host) → KeepsTasks db (add_new_host db client h)
  unfolding KeepsTasks add_new_host
  add_new_host_tasks db client h =
      if_both (KeepsTasks db) (has_host db client h) _ _ refl
        (if_both (KeepsTasks db) (is_host_exist db h) _ _ refl (new_host_entry_tasks db h))

  on_host_tasks :
      (db : Db) (client : Client) (o : Option Host) → KeepsTasks db (on_host db client o)
  unfolding KeepsTasks on_host get_host_id
  on_host_tasks db client none = refl
  on_host_tasks db client (some h) = add_new_host_tasks _ client _

  on_task-TasksInv :
      (db : Db) (client : Client) (o : Option (Tunnel × Bool))
      → TasksInv db
      → TasksInv (on_task db client o).db
  unfolding on_task get_task_id
  on_task-TasksInv db client none v = v
  on_task-TasksInv db client (some (t, false)) v = same_tasks db (get_task_id db).0 refl v
  on_task-TasksInv db client (some (t, true)) v = config_task-TasksInv port_free client t db v

  config_message-TasksInv :
      (db : Db) (client : Client) (m : ConfigMessage)
      → TasksInv db
      → TasksInv (config_message db client m).db
  unfolding config_message KeepsTasks
  config_message-TasksInv db client (status_flag key) v =
      same_tasks db _ (on_status_tasks db client key) v
  config_message-TasksInv db client (conf_flag c draws) v =
      same_tasks db _ (on_conf_tasks db client c draws) v
  config_message-TasksInv db client (host_flag h) v = same_tasks db _ (on_host_tasks db client h) v
  config_message-TasksInv db client (task_flag t) v = on_task-TasksInv db client t v
  config_message-TasksInv db client other_flag v = v

  and_messages-TasksInv :
      (e : End) (s : ConfigState) (f : Db → Client → ConfigState)
      → TasksInv s.db
      → ((db : Db) (c : Client) → TasksInv db → TasksInv (f db c).db)
      → TasksInv (and_messages e s f).db
  unfolding and_messages
  and_messages-TasksInv (next go_on) s f v h = h s.db s.client v
  and_messages-TasksInv (next broken) s f v h = v
  and_messages-TasksInv (next panicked) s f v h = v
  and_messages-TasksInv closed s f v h = v

  -- Whatever a client sends on its configuration connection, and wherever it ends: from a table with
  -- every tunnel under its own id and at most one secret or p2p tunnel for each password, the result
  -- is such a table.
  pub config_loop-TasksInv :
      (ms : List ConfigMessage) (db : Db) (client : Client)
      → TasksInv db
      → TasksInv (config_loop db client ms).db
  unfolding config_loop
  config_loop-TasksInv [] db client v = v
  config_loop-TasksInv (m ∷ ms) db client v =
      let s = config_message db client m in
      and_messages-TasksInv s.end s (λ db' c. config_loop db' c ms)
        (config_message-TasksInv db client m v) (λ db' c v'. config_loop-TasksInv ms db' c v')
