-- ===== src/File/Clients.antt =====
-- The connection limit, the flow check and the flow counters of a client: `GetConn` and `Add` of
-- lib/file/obj.go, `CheckFlowAndConnNum`, `FlowAdd` and `FlowAddHost` of server/proxy/base.go.
use next_nps.Base.{
  leb, if◌then◌else◌, ℕ, ◌+◌, ◌-◌, ◌*◌, ◌≤◌, ◌<◌, ◌≡◌, ◌≢◌, ◌⊎◌, Bool, ◌&&◌, Option, none, some,
  List, [], ◌∷◌, arith,
}
use next_nps.Base.Int.{
  ℤ, pos, negsuc, ◌+ℤ◌, ◌-ℤ◌, ◌≤ℤ◌, ◌<ℤ◌, ltb_ℤ, ℤ_beq, ℤ_beq_iff, int32, int64,
}
use next_nps.File.{Flow, Client, Tunnel, Host, add_conn, get_conn}

pub data FlowError : Type 0 where
  traffic_exceeded : FlowError
  conn_limit : FlowError
  nil_flow : FlowError

-- `x << 20` on an int64.
abbrev pub shl20 : ℤ → ℤ
shl20 (pos n) = int64 (pos (n * 1048576))
shl20 (negsuc n) = int64 (negsuc (n * 1048576 + 1048575))

abbrev over_limit : Flow → Bool
over_limit f =
    ltb_ℤ (pos 0) f.flow_limit && ltb_ℤ (shl20 f.flow_limit) (int64 (f.export_flow +ℤ f.inlet_flow))

take_slot : Client → Client × Option FlowError
unfolding get_conn
take_slot c = let (c', done) = get_conn c in if done then (c', none) else (c, some conn_limit)

-- `none` is a nil error. A nil flow is a nil dereference in the source.
check_flow : Client → Option Flow → Client × Option FlowError
unfolding take_slot
check_flow c none = (c, some nil_flow)
check_flow c (some f) = if over_limit f then (c, some traffic_exceeded) else take_slot c

unfoldable pub check_flow_and_conn_num : Client → Client × Option FlowError
unfolding check_flow
check_flow_and_conn_num c = check_flow c c.flow

unfoldable pub base_flow_add : Tunnel → ℤ → ℤ → Tunnel
base_flow_add t inlet outlet = record t {
  flow = record flow {
    export_flow = int64 (flow.export_flow +ℤ outlet);
    inlet_flow = int64 (flow.inlet_flow +ℤ inlet);
  };
}
  where
    open t use {flow}

unfoldable pub flow_add_host : Host → ℤ → ℤ → Host
flow_add_host h inlet outlet = record h {
  flow = record flow {
    export_flow = int64 (flow.export_flow +ℤ outlet);
    inlet_flow = int64 (flow.inlet_flow +ℤ inlet);
  };
}
  where
    open h use {flow}

-- What the connections of a client do to its counter.
pub data Call : Type 0 where
  open_conn : Call
  close_conn : Call

-- The limiter with the connections that were let in and are not yet closed.
pub record Gate : Type 0 where
  pub client : Client
  pub held : ℕ

-- The calls of the proxies in a row: `GetConn` for a new connection, and `AddConn` once for each that
-- was let in, at its end. The proxies for tcp, udp, socks5 and https call so; http.go does not where
-- it starts over on one connection.
unfoldable pub gate_step : Gate → Call → Gate
unfolding get_conn add_conn
gate_step g open_conn =
    let (c, done) = get_conn g.client in
    record { client = c; held = if done then g.held + 1 else g.held }
gate_step g close_conn =
    if leb 1 g.held then record { client = add_conn g.client; held = g.held - 1 } else g

unfoldable pub gate_run : Gate → List Call → Gate
unfolding gate_step
gate_run g [] = g
gate_run g (c ∷ cs) = gate_run (gate_step g c) cs

-- The counter is the number of connections held, and no more than `max` are.
pub record GateInv (max : ℕ) (g : Gate) : Type 0 where
  pub limit_is : g.client.max_conn ≡ pos max
  pub counted : g.client.now_conn ≡ pos g.held
  pub bounded : g.held ≤ max

-- A connection that is let in takes exactly one slot.
get_conn-GateInv :
    (max held : ℕ) (c : Client)
    → max < 2147483648
    → GateInv max (record { client = c; held = held })
    → max ≢ 0
    → GateInv max (gate_step (record { client = c; held = held }) open_conn)
unfolding gate_step int32 ◌+ℤ◌ ℤ_beq
get_conn-GateInv max held c k v ne = ground arith

close_conn-GateInv :
    (max held : ℕ) (c : Client)
    → max < 2147483648
    → GateInv max (record { client = c; held = held })
    → GateInv max (gate_step (record { client = c; held = held }) close_conn)
unfolding gate_step int32 ◌-ℤ◌
close_conn-GateInv max held c k v = ground arith

-- Through any sequence of connections that ask to be let in, and of ends of connections that were let
-- in and have not ended before, one call at a time, a client with a limit
-- has as many connections counted as are held, and no more than the limit. The limit is positive
-- and fits an int32.
pub gate_run-GateInv :
    (max : ℕ) (g : Gate) (cs : List Call)
    → 0 < max
    → max < 2147483648
    → GateInv max g
    → GateInv max (gate_run g cs)
unfolding gate_run
gate_run-GateInv max g [] h k v = v
gate_run-GateInv max g (open_conn ∷ cs) h k v =
    gate_run-GateInv max (gate_step g open_conn) cs h k
      (get_conn-GateInv max g.held g.client k v (omega arith))
gate_run-GateInv max g (close_conn ∷ cs) h k v =
    gate_run-GateInv max (gate_step g close_conn) cs h k
      (close_conn-GateInv max g.held g.client k v)

-- The outcome of the check for a client with a flow: the traffic is over a positive limit and the
-- client is unchanged; or the connections have reached a limit that is not zero and the client is
-- unchanged; or there is no limit or room under it, and the counter goes up by one.
pub check_flow_cases :
    (c : Client) (f : Flow)
    → c.flow ≡ some f
    → let r = check_flow_and_conn_num c in
      ((r.1 ≡ some traffic_exceeded)
        × (r.0 ≡ c)
        × (pos 0 <ℤ f.flow_limit)
        × (shl20 f.flow_limit <ℤ int64 (f.export_flow +ℤ f.inlet_flow)))
      ⊎ ((r.1 ≡ some conn_limit) × (r.0 ≡ c) × (c.max_conn ≢ pos 0) × (c.max_conn ≤ℤ c.now_conn))
      ⊎ ((r.1 ≡ none)
          × (r.0 ≡ record c { now_conn = int32 (c.now_conn +ℤ pos 1) })
          × ((c.max_conn ≡ pos 0) ⊎ (c.now_conn <ℤ c.max_conn)))
unfolding check_flow_and_conn_num get_conn
check_flow_cases c f e = ground (arith, ℤ_beq_iff c.max_conn (pos 0))
