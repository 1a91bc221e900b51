-- ===== src/Socks/Handshake.antt =====
-- server/proxy/socks5.go: the negotiation of a SOCKS5 connection and its request. What the server
-- writes and does is a list of effects.
pub mod Auth
pub mod Logins
mod Tests
use next_nps.Socks.{ip_v4, domain_name, ip_v6, put_uint16}
use next_nps.Socks.Stream.{Stream, read, read_all}
use next_nps.Base.{
  nat_beq, if◌then◌else◌, ◌==◌, is_some, length, Bytes, bytes_beq, Store, load, map_some, ℕ, Bool,
  true, false, not, ◌&&◌, ◌||◌, Option, none, some, List, [], ◌∷◌, nat_eq, bytes_eq,
}

-- Of the tunnel, what the negotiation asks: the accounts, if there is a `MultiAccount`, and the
-- client's own name and password.
pub record Login : Type 0 where
  pub accounts : Option (Store Bytes Bytes)
  pub user : Bytes
  pub password : Bytes

-- What is left of a connection that goes on, or that it is closed; with what was written.
pub data Step : Type 0 where
  go_on : List Bytes → Stream → Step
  closed : List Bytes → Step

abbrev has_accounts : Option (Store Bytes Bytes) → Bool
has_accounts (some (a ∷ m)) = true
has_accounts _ = false

unfoldable pub needs_auth : Login → Bool
unfolding bytes_beq
needs_auth l = not (l.user == []) && not (l.password == []) || has_accounts l.accounts

account : Option (Store Bytes Bytes) → Bytes × Bytes → Bytes → Option (Bytes × Bytes)
unfolding load
account (some m) own sent = map_some (λ p. (sent, p)) (load sent m)
account none own sent = some own

-- The name and password to compare with, for the name that was sent.
expected : Login → Bytes → Option (Bytes × Bytes)
expected l sent = account l.accounts (l.user, l.password) sent

is_login : Option (Bytes × Bytes) → Bytes → Bytes → Bool
is_login none sent pass = false
is_login (some (u, p)) sent pass = sent == u && pass == p

-- `Auth`: an unknown name gets no answer. `writes` says whether the connection can be written.
auth_answer : Login → Bool → Bytes → Bytes → Stream → Step
auth_answer l writes sent pass s =
    if not (is_some (expected l sent))
    then closed []
    else if is_login (expected l sent) sent pass
    then (if writes then go_on ((1 ∷ 0 ∷ []) ∷ []) s else closed [])
    else closed ((1 ∷ 1 ∷ []) ∷ [])

auth_pass : Login → Bool → Bytes → Option Bytes × Stream → Step
auth_pass l writes sent (some pass, s) = auth_answer l writes sent pass s
auth_pass l writes sent (none, s) = closed []

auth_pass_len : Login → Bool → Bytes → Option Bytes × Stream → Step
auth_pass_len l writes sent (some (n ∷ _), s) = auth_pass l writes sent (read_all n s)
auth_pass_len l writes sent (_, s) = closed []

auth_user : Login → Bool → Option Bytes × Stream → Step
auth_user l writes (some sent, s) = auth_pass_len l writes sent (read 1 s)
auth_user l writes (none, s) = closed []

auth_header : Login → Bool → Option Bytes × Stream → Step
auth_header l writes (some (v ∷ n ∷ _), s) =
    if not (nat_beq v 1) then closed [] else auth_user l writes (read_all n s)
auth_header l writes (_, s) = closed []

pub auth : Login → Bool → Stream → Step
auth l writes s = auth_header l writes (read_all 2 s)

abbrev note : Bytes → Step → Step
note w (go_on ws s) = go_on (w ∷ ws) s
note w (closed ws) = closed (w ∷ ws)

-- `handleConn` up to the request. The methods that the client offers are not looked at.
conn_methods : Login → Bool → ℕ → Option Bytes × Stream → Step
conn_methods l writes n (some ms, s) =
    if not (nat_beq (length ms) n)
    then closed []
    else if needs_auth l
    then note (5 ∷ 2 ∷ []) (auth l writes s)
    else go_on ((5 ∷ 0 ∷ []) ∷ []) s
conn_methods l writes n (none, s) = closed []

conn_header : Login → Bool → Option Bytes × Stream → Step
conn_header l writes (some (v ∷ n ∷ _), s) =
    if not (nat_beq v 5) then closed [] else conn_methods l writes n (read n s)
conn_header l writes (_, s) = closed []

pub negotiate : Login → Bool → Stream → Step
negotiate l writes s = conn_header l writes (read_all 2 s)
