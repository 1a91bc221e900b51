-- ===== src/Socks/Handshake/Logins.antt =====
-- The negotiation of server/proxy/socks5.go with a client that has an account.
use next_nps.Socks.Stream.{Stream, read, read_front, read_all_front, read_all_next}
use next_nps.Socks.Handshake.{
  Login, go_on, needs_auth, account, expected, is_login, auth_answer, auth_pass, auth_pass_len,
  auth_user, auth_header, auth, note, conn_methods, conn_header, negotiate,
}
use next_nps.Socks.Handshake.Auth.{IsAccountOf, IsAccount, auth_message}
use next_nps.Base.{
  nat_beq, ◌==◌, ==_iff, is_some, length, Bytes, Store, ◌≡◌, refl, sym, ap, ◌∙◌, true, Option, none,
  some, [], ◌∷◌, ◌++◌, append-nil, arith, nat_eq, bytes_eq,
}

same_refl : (b : Bytes) → (b == b) ≡ true
same_refl b = ground (arith, ==_iff b b)

account_lem :
    (accounts : Option (Store Bytes Bytes)) (own : Bytes × Bytes) (sent pass : Bytes)
    → IsAccountOf accounts own sent pass
    → (is_some (account accounts own sent) ≡ true)
      × (is_login (account accounts own sent) sent pass ≡ true)
unfolding account is_login
account_lem (some m) own sent pass h = rw h (refl, ground (arith, same_refl sent, same_refl pass))
account_lem none (user, password) sent pass (e, f) =
    (refl, rw (e, f) (ground (arith, same_refl user, same_refl password)))

module _ (l : Login) where
  answer_lem :
      (sent pass : Bytes) (s : Stream)
      → IsAccount l sent pass
      → auth_answer l true sent pass s ≡ go_on ((1 ∷ 0 ∷ []) ∷ []) s
  unfolding auth_answer expected
  answer_lem sent pass s h =
      let (p, q) = account_lem l.accounts (l.user, l.password) sent pass h in rw (p, q) refl

  auth_lem :
      (sent pass : Bytes) (cs : Stream)
      → IsAccount l sent pass
      → auth l true ([] ∷ (1 ∷ auth_message sent pass []) ∷ cs)
        ≡ go_on ((1 ∷ 0 ∷ []) ∷ []) ([] ∷ cs)
  unfolding auth auth_header auth_user auth_pass_len auth_pass read
  auth_lem sent pass cs h =
      let tail = length pass ∷ (pass ++ []) in
      ap (auth_header l true) (
        read_all_next 1 ((1 ∷ auth_message sent pass []) ∷ cs)
        ∙ read_all_front (1 ∷ length sent ∷ []) (sent ++ tail) cs)
      ∙ ap (auth_user l true) (read_all_front sent tail cs)
      ∙ ap (auth_pass l true sent) (read_all_front pass [] cs)
      ∙ answer_lem sent pass ([] ∷ cs) h

  -- Where a login is asked for, a client that greets with its methods in one piece, and sends the
  -- name and the password of an account in the next, gets to its request, with nothing lost of what
  -- it sends behind them.
  pub negotiate_accepts :
      (ms sent pass : Bytes) (cs : Stream)
      → needs_auth l ≡ true
      → IsAccount l sent pass
      → negotiate l true ((5 ∷ length ms ∷ ms) ∷ (1 ∷ auth_message sent pass []) ∷ cs)
        ≡ go_on ((5 ∷ 2 ∷ []) ∷ (1 ∷ 0 ∷ []) ∷ []) ([] ∷ cs)
  unfolding negotiate conn_header conn_methods
  negotiate_accepts ms sent pass cs a h =
      let rest = (1 ∷ auth_message sent pass []) ∷ cs in
      let e : nat_beq (length ms) (length ms) ≡ true = ground arith in
      ap (conn_header l true) (read_all_front (5 ∷ length ms ∷ []) ms rest)
      ∙ ap (conn_methods l true (length ms))
          (ap (λ b. read (length ms) (b ∷ rest)) (sym (append-nil ms)) ∙ read_front ms [] rest)
      ∙ rw (e, a) (ap (note (5 ∷ 2 ∷ [])) (auth_lem sent pass cs h))
