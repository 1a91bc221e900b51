-- ===== src/Socks/Handshake/Tests.antt =====
-- A login that is right, one that is wrong, and a greeting that comes in two pieces.
use next_nps.Socks.Stream.{read, read_all}
use next_nps.Socks.Handshake.{
  Login, go_on, closed, needs_auth, account, expected, is_login, auth_answer, auth_pass,
  auth_pass_len, auth_user, auth_header, auth, conn_methods, conn_header, negotiate,
}
use next_nps.Socks.Handshake.Auth.{IsAccount, auth_message, negotiate_safe}
use next_nps.Socks.Stream.{flat}
use next_nps.Base.{length, Bytes, codes, ◌≡◌, refl, true, none, List, [], ◌∷◌, ◌++◌}

abbrev own_login : Login
own_login = record { accounts = none; user = codes "u"; password = codes "pw" }

abbrev right_bytes : List Bytes
right_bytes = (5 ∷ 1 ∷ 2 ∷ []) ∷ (1 ∷ 1 ∷ b'u' ∷ 2 ∷ b'p' ∷ b'w' ∷ []) ∷ (5 ∷ 1 ∷ 0 ∷ []) ∷ []

right_login :
    negotiate own_login true right_bytes
    ≡ go_on ((5 ∷ 2 ∷ []) ∷ (1 ∷ 0 ∷ []) ∷ []) ([] ∷ (5 ∷ 1 ∷ 0 ∷ []) ∷ [])
unfolding needs_auth account expected is_login auth_answer auth_pass auth_pass_len auth_user
    auth_header auth conn_methods conn_header negotiate read read_all
right_login = refl

-- The methods are read once, so a greeting that is split there is refused.
split_greeting : negotiate own_login true ((5 ∷ 2 ∷ 0 ∷ []) ∷ (2 ∷ []) ∷ []) ≡ closed []
unfolding conn_methods conn_header negotiate read read_all
split_greeting = refl

negotiate_safe_example :
    (ms : Bytes) × (sent : Bytes) × (pass : Bytes) × IsAccount own_login sent pass
    × (flat right_bytes
        ≡ 5 ∷ length ms ∷ (ms ++ (1 ∷ auth_message sent pass (flat ([] ∷ (5 ∷ 1 ∷ 0 ∷ []) ∷ [])))))
unfolding needs_auth
negotiate_safe_example =
    negotiate_safe own_login true right_bytes ([] ∷ (5 ∷ 1 ∷ 0 ∷ []) ∷ [])
      ((5 ∷ 2 ∷ []) ∷ (1 ∷ 0 ∷ []) ∷ []) refl right_login
