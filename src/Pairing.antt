-- ===== src/Pairing.antt =====
-- server/proxy/p2p.go: the server that tells the two ends of a p2p tunnel each other's addresses. A
-- datagram starts a goroutine, and that of a visitor looks for the provider once a second; each look
-- is a step of its own here, so that any order of datagrams and looks is a run. An address is its
-- text.
mod Arrivals
mod Looks
mod Meetings
mod Objects
mod Tests
use next_nps.Wire.{seq}
use next_nps.Base.{
  nat_beq, if◌then◌else◌, ◌==◌, Bytes, codes, split_seq, Store, load, store, delete, ℕ, zero, suc,
  ◌+◌, ◌&&◌, Option, none, some, List, [], ◌∷◌, ◌++◌, nat_eq, bytes_eq,
}

-- `p2p`, behind a pointer that the table and the goroutines share.
pub record Addresses : Type 0 where
  pub visitor_addr : Option Bytes
  pub provider_addr : Option Bytes

-- A goroutine of a visitor: its key, the number of its `p2p`, and the looks that are left.
pub record Visit : Type 0 where
  pub key : Bytes
  pub entry : ℕ
  pub looks : ℕ

-- The table gives the number of a `p2p`, which with the key stands for the pointer; `made` counts
-- the ones there are. One that is not made yet is empty.
pub record P2pServer : Type 0 where
  pub p2p : Store Bytes ℕ
  pub objects : Bytes → ℕ → Addresses
  pub made : ℕ
  pub visits : List Visit

pub record Packet : Type 0 where
  pub text : Bytes
  pub to : Option Bytes

pub data Event : Type 0 where
  datagram : Bytes → Bytes → Event
  look : ℕ → Event

abbrev pub new_p2p_server : P2pServer
new_p2p_server = record {
  p2p = [];
  objects = λ key n. record { visitor_addr = none; provider_addr = none };
  made = 0;
  visits = [];
}

-- `addr.String()`; Go prints a nil address as `<nil>`.
abbrev pub address_text : Option Bytes → Bytes
address_text none = codes "<nil>"
address_text (some a) = a

unfoldable pub write_object :
    Bytes → ℕ → Addresses → (Bytes → ℕ → Addresses) → Bytes → ℕ → Addresses
write_object key n v f k m = if k == key && nat_beq m n then v else f k m

-- The entry of a key, made where there is none.
unfoldable pub entry_of : Bytes → Option ℕ → P2pServer → ℕ × P2pServer
entry_of key (some n) s = (n, s)
entry_of key none s = (s.made, record s { p2p = store key s.made s.p2p; made = s.made + 1 })

-- A visitor waits, the latest first; a provider only leaves its address.
unfoldable pub enter : Bytes → Bytes → Bytes → ℕ × P2pServer → P2pServer
enter key role addr (n, s) =
    if role == codes "p2pv"
    then record s {
      objects =
          write_object key n (record (s.objects key n) { visitor_addr = some addr }) s.objects;
      visits = (record { key = key; entry = n; looks = 20 }) ∷ s.visits;
    }
    else record s {
      objects =
          write_object key n (record (s.objects key n) { provider_addr = some addr }) s.objects;
    }

-- `handleP2P` up to the loop of the visitor.
unfoldable pub on_pieces : Bytes → List Bytes → P2pServer → P2pServer
on_pieces addr (key ∷ role ∷ rest) s = enter key role addr (entry_of key (load key s.p2p) s)
on_pieces addr _ s = s

unfoldable pub put_visit : ℕ → List Visit → List Visit → List Visit
put_visit i new [] = []
put_visit zero new (v ∷ vs) = new ++ vs
put_visit (suc i) new (v ∷ vs) = v ∷ put_visit i new vs

unfoldable pub visit_at : ℕ → List Visit → Option Visit
visit_at i [] = none
visit_at zero (v ∷ vs) = some v
visit_at (suc i) (v ∷ vs) = visit_at i vs

-- The goroutine ends and takes the key out of the table.
unfoldable pub leave : ℕ → Visit → P2pServer → P2pServer
leave i v s = record s { p2p = delete v.key s.p2p; visits = put_visit i [] s.visits }

-- Both are told, the visitor first.
unfoldable pub introduce : Option Bytes → Bytes → List Packet
introduce visitor provider =
    record { text = provider; to = visitor }
    ∷ record { text = address_text visitor; to = some provider }
    ∷ []

unfoldable pub look_for : ℕ → Visit → ℕ → Option Bytes → P2pServer → P2pServer × List Packet
look_for i v left none s =
    (record s { visits = put_visit i (record v { looks = left } ∷ []) s.visits }, [])
look_for i v left (some provider) s =
    (leave i v s, introduce (s.objects v.key v.entry).visitor_addr provider)

-- One round of the loop, or its end after the last.
unfoldable pub on_round : ℕ → Visit → ℕ → P2pServer → P2pServer × List Packet
on_round i v zero s = (leave i v s, [])
on_round i v (suc left) s = look_for i v left (s.objects v.key v.entry).provider_addr s

unfoldable pub on_look : ℕ → Option Visit → P2pServer → P2pServer × List Packet
on_look i none s = (s, [])
on_look i (some v) s = on_round i v v.looks s

-- `handleP2P`, in its steps.
unfoldable pub handle_p2p : Event → P2pServer → P2pServer × List Packet
handle_p2p (datagram addr str) s = (on_pieces addr (split_seq 0 seq str) s, [])
handle_p2p (look i) s = on_look i (visit_at i s.visits) s

-- The server after the events, of which the latest is the first of the list.
unfoldable pub p2p_run : List Event → P2pServer
p2p_run [] = new_p2p_server
p2p_run (e ∷ es) = (handle_p2p e (p2p_run es)).0
