-- ===== src/Bridge/Health.antt =====
-- `GetHealthFromClient` of bridge/bridge.go: a client reports that one of its targets failed or
-- came back, and the tunnels and hosts that list it change. The helpers on string slices are those
-- of lib/common/util.go. Slices are values: `RemoveArrVal` writes through the slice that it is
-- given, which its callers replace by the result at once.
use next_nps.Base.{
  if◌then◌else◌, ◌==◌, Bytes, codes, bytes_beq_iff, contains, split, load, map_values,
  load-map_values, map_some, ◌≡◌, refl, ap, ◌∙◌, Bool, true, false, not, ◌&&◌, ◌||◌, Option, none,
  some, List, [], ◌∷◌, ◌++◌, arith, nat_eq, bytes_eq,
}
use next_nps.Base.Int.{ℤ, ℤ_beq_iff, ℤ_eq}
use next_nps.File.{Target, Tunnel, Host}
use next_nps.Db.{Db}
use next_nps.Bridge.{Bridge, Step, del_client}

unfoldable pub is_arr_contains : List Bytes → Bytes → Bool
is_arr_contains [] val = false
is_arr_contains (v ∷ arr) val = v == val || is_arr_contains arr val

-- Only the first match goes.
unfoldable pub remove_arr_val : List Bytes → Bytes → List Bytes
remove_arr_val [] val = []
remove_arr_val (v ∷ arr) val = if v == val then arr else v ∷ remove_arr_val arr val

unfoldable pub trim_arr : List Bytes → List Bytes
trim_arr [] = []
trim_arr (v ∷ arr) = let rest = trim_arr arr in if v == [] then rest else v ∷ rest

-- `arr` of a nil slice.
abbrev pub or_nil : Option (List Bytes) → List Bytes
or_nil none = []
or_nil (some arr) = arr

-- The slice, filled from the text when it is nil, or when it is empty and nothing was removed.
filled : Target → List Bytes → Option (List Bytes) → List Bytes
unfolding trim_arr
filled t removed none = trim_arr (split b'\n' t.target_str)
filled t removed (some (a ∷ arr)) = a ∷ arr
filled t (r ∷ removed) (some []) = []
filled t [] (some []) = trim_arr (split b'\n' t.target_str)

-- A failed target leaves the list and is noted as removed.
unfoldable pub fail_target : Bytes → Target × List Bytes → Target × List Bytes
unfolding filled remove_arr_val
fail_target info (t, removed) = (
  record t { target_arr = some (remove_arr_val (filled t removed t.target_arr) info) },
  removed ++ info ∷ [],
)

-- A target that is noted as removed and not in the list comes back at its end.
unfoldable pub recover_target : Bytes → Target × List Bytes → Target × List Bytes
unfolding is_arr_contains remove_arr_val
recover_target info (t, removed) =
    if is_arr_contains removed info && not (is_arr_contains (or_nil t.target_arr) info)
    then (
      record t { target_arr = some (or_nil t.target_arr ++ info ∷ []) },
      remove_arr_val removed info,
    )
    else (t, removed)

abbrev pub apply_report : Bool → Bytes → Target × List Bytes → Target × List Bytes
apply_report true info = recover_target info
apply_report false info = fail_target info

-- A failure is for the entries whose text contains the address; a recovery asks the slices alone.
abbrev concerns : Bool → Bytes → Target → Bool
concerns true info t = true
concerns false info t = contains t.target_str info

report_tunnel : ℤ → Bool → Bytes → Tunnel → Tunnel
report_tunnel id status info v =
    if v.client == id && v.mode == codes "tcp" && concerns status info v.target
    then (let (t, r) = apply_report status info (v.target, v.health_remove_arr) in
        record v { target = t; health_remove_arr = r })
    else v

report_host : ℤ → Bool → Bytes → Host → Host
report_host id status info v =
    if v.client == id && concerns status info v.target
    then (let (t, r) = apply_report status info (v.target, v.health_remove_arr) in
        record v { target = t; health_remove_arr = r })
    else v

-- One report.
pub health_report : Db → ℤ → Bool → Bytes → Db
unfolding report_tunnel report_host
health_report db id status info = record db {
  tasks = map_values (report_tunnel id status info) db.tasks;
  hosts = map_values (report_host id status info) db.hosts;
}

-- The loop: reports until the connection fails, and then the session is dropped.
pub get_health_from_client : Db → Bridge → ℤ → List (Bytes × Bool) → Db × Step
get_health_from_client db s id [] = (db, del_client db s id)
get_health_from_client db s id ((info, status) ∷ rest) =
    get_health_from_client (health_report db id status info) s id rest

-- An address that the list does not hold.
contains-append : (arr : List Bytes) (x : Bytes) → is_arr_contains (arr ++ x ∷ []) x ≡ true
unfolding is_arr_contains
contains-append [] x = ground (arith, bytes_beq_iff x x)
contains-append (v ∷ arr) x = ground (arith, contains-append arr x)

remove-absent :
    (arr : List Bytes) (x : Bytes) → is_arr_contains arr x ≡ false → remove_arr_val arr x ≡ arr
unfolding is_arr_contains remove_arr_val
remove-absent [] x h = refl
remove-absent (v ∷ arr) x h = ground (arith, remove-absent arr x)

remove-append :
    (arr : List Bytes) (x : Bytes)
    → is_arr_contains arr x ≡ false
    → remove_arr_val (arr ++ x ∷ []) x ≡ arr
unfolding is_arr_contains remove_arr_val
remove-append [] x h = ground (arith, bytes_beq_iff x x)
remove-append (v ∷ arr) x h = ground (arith, remove-append arr x)

remove-middle :
    (before after : List Bytes) (x : Bytes)
    → is_arr_contains before x ≡ false
    → remove_arr_val (before ++ x ∷ after) x ≡ before ++ after
unfolding is_arr_contains remove_arr_val
remove-middle [] after x h = ground (arith, bytes_beq_iff x x)
remove-middle (v ∷ before) after x h = ground (arith, remove-middle before after x)

contains-append_none :
    (before after : List Bytes) (x : Bytes)
    → is_arr_contains before x ≡ false
    → is_arr_contains after x ≡ false
    → is_arr_contains (before ++ after) x ≡ false
unfolding is_arr_contains
contains-append_none [] after x h k = k
contains-append_none (v ∷ before) after x h k = ground (arith, contains-append_none before after x)

filled_middle :
    (t : Target) (removed before after : List Bytes) (x : Bytes)
    → filled t removed (some (before ++ x ∷ after)) ≡ before ++ x ∷ after
unfolding filled
filled_middle t removed [] after x = refl
filled_middle t removed (v ∷ before) after x = refl

-- A recovery of a target that was noted last.
recover_noted :
    (t : Target) (removed arr : List Bytes) (x : Bytes)
    → t.target_arr ≡ some arr
    → is_arr_contains arr x ≡ false
    → is_arr_contains removed x ≡ false
    → recover_target x (t, removed ++ x ∷ [])
      ≡ (record t { target_arr = some (arr ++ x ∷ []) }, removed)
unfolding recover_target
recover_noted t removed arr x e h k =
    ground (arith, contains-append removed x, remove-append removed x k, e)

-- A target that fails and then comes back: it was not noted as removed, and it stood in the list
-- once, between `before` and `after`. In between it is in the list no more and is noted; in the end
-- the list holds it last, and the notes are as they were.
pub recover-fail :
    (t : Target) (removed before after : List Bytes) (info : Bytes)
    → t.target_arr ≡ some (before ++ info ∷ after)
    → is_arr_contains before info ≡ false
    → is_arr_contains after info ≡ false
    → is_arr_contains removed info ≡ false
    → let down = fail_target info (t, removed) in
      (down ≡ (record t { target_arr = some (before ++ after) }, removed ++ info ∷ []))
      × (recover_target info down
          ≡ (record t { target_arr = some ((before ++ after) ++ info ∷ []) }, removed))
unfolding fail_target recover_target
recover-fail t removed before after info e hb ha hr =
    let down : fail_target info (t, removed)
        ≡ (record t { target_arr = some (before ++ after) }, removed ++ info ∷ []) =
      ap (λ (arr : List Bytes). (record t { target_arr = some arr }, removed ++ info ∷ []))
        (ap (λ (o : Option (List Bytes)). remove_arr_val (filled t removed o) info) e
          ∙ ap (λ (arr : List Bytes). remove_arr_val arr info)
              (filled_middle t removed before after info)
          ∙ remove-middle before after info hb) in
    (
      down,
      ap (recover_target info) down
          ∙ recover_noted (record t { target_arr = some (before ++ after) }) removed
              (before ++ after) info refl (contains-append_none before after info hb ha) hr,
    )

-- The same pair of reports for an address that the list does not hold.
fail_recover_stranger :
    (t : Target) (removed : List Bytes) (a : Bytes) (arr : List Bytes) (info : Bytes)
    → t.target_arr ≡ some (a ∷ arr)
    → is_arr_contains (a ∷ arr) info ≡ false
    → is_arr_contains removed info ≡ false
    → recover_target info (fail_target info (t, removed))
      ≡ (record t { target_arr = some ((a ∷ arr) ++ info ∷ []) }, removed)
unfolding fail_target filled
fail_recover_stranger t removed a arr info e h k =
    let same : filled t removed t.target_arr ≡ a ∷ arr = rw e refl in
    ap
      (λ (l : List Bytes).
        recover_target info (record t { target_arr = some l }, removed ++ info ∷ []))
      (ap (λ (l : List Bytes). remove_arr_val l info) same ∙ remove-absent (a ∷ arr) info h)
    ∙ recover_noted (record t { target_arr = some (a ∷ arr) }) removed (a ∷ arr) info refl h k

-- A report on a tunnel of the client in tcp mode.
report_tunnel_hit :
    (id : ℤ) (status : Bool) (info : Bytes) (v : Tunnel)
    → v.client ≡ id
    → v.mode ≡ codes "tcp"
    → concerns status info v.target ≡ true
    → report_tunnel id status info v ≡ record v {
      target = (apply_report status info (v.target, v.health_remove_arr)).0;
      health_remove_arr = (apply_report status info (v.target, v.health_remove_arr)).1;
    }
unfolding report_tunnel
report_tunnel_hit id status info v c m t =
    ground (arith, ℤ_beq_iff v.client id, bytes_beq_iff v.mode (codes "tcp"))

-- A failure and a recovery are reported of an address that stands inside the text of a tcp tunnel of
-- the client, but is neither one of its targets, of which it has some, nor noted as removed: the
-- tunnel then has it as its last target.
pub health_report_stranger :
    (db : Db) (id k : ℤ) (info : Bytes) (v : Tunnel) (a : Bytes) (arr : List Bytes)
    → load k db.tasks ≡ some v
    → v.client ≡ id
    → v.mode ≡ codes "tcp"
    → contains v.target.target_str info ≡ true
    → v.target.target_arr ≡ some (a ∷ arr)
    → is_arr_contains (a ∷ arr) info ≡ false
    → is_arr_contains v.health_remove_arr info ≡ false
    → load k (health_report (health_report db id false info) id true info).tasks
      ≡ some (record v { target = record v.target { target_arr = some ((a ∷ arr) ++ info ∷ []) } })
unfolding health_report
health_report_stranger db id k info v a arr l c m t e h r =
    let down : Tunnel = record v {
      target = (fail_target info (v.target, v.health_remove_arr)).0;
      health_remove_arr = (fail_target info (v.target, v.health_remove_arr)).1;
    } in
    let back = fail_recover_stranger v.target v.health_remove_arr a arr info e h r in
    load-map_values (report_tunnel id true info) k _
    ∙ ap (map_some (report_tunnel id true info)) (
        load-map_values (report_tunnel id false info) k db.tasks
        ∙ ap (map_some (report_tunnel id false info)) l
        ∙ ap {B = Option Tunnel} some (report_tunnel_hit id false info v c m t))
    ∙ ap {B = Option Tunnel} some (report_tunnel_hit id true info down c m refl)
    ∙ ap (λ (p : Target × List Bytes). some (record v { target = p.0; health_remove_arr = p.1 }))
        back
