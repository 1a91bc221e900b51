-- ===== src/Socks/Handshake/Auth.antt =====
-- Who gets past the negotiation of server/proxy/socks5.go.
use next_nps.Socks.Stream.{
  Stream, flat, read, read_all, Taken, Sized, read-Taken, read_1-Sized, read_all-Taken,
  read_all-Sized,
}
use next_nps.Socks.Handshake.{
  Login, Step, go_on, closed, needs_auth, account, expected, is_login, auth_answer, auth_pass,
  auth_pass_len, auth_user, auth_header, auth, note, conn_methods, conn_header, negotiate,
}
use next_nps.Base.{
  nat_beq, ==_iff, Bool-cases, if_both, is_some, length, Bytes, Store, load, map_some, ℕ, ◌≡◌, refl,
  sym, ap, ◌∙◌, subst, inl, inr, Bool, true, not, Option, none, some, List, [], ◌∷◌, ◌++◌, arith,
  nat_eq, bytes_eq,
}

abbrev pub IsAccountOf : Option (Store Bytes Bytes) → Bytes × Bytes → Bytes → Bytes → Type 0
IsAccountOf (some m) own sent pass = load sent m ≡ some pass
IsAccountOf none (user, password) sent pass = (sent ≡ user) × (pass ≡ password)

-- A name and its password, by the accounts if there are any, or else by the client.
abbrev pub IsAccount : Login → Bytes → Bytes → Type 0
IsAccount l sent pass = IsAccountOf l.accounts (l.user, l.password) sent pass

-- What holds of what is left of the connection, if it goes on.
abbrev OnGo : (Stream → Type 0) → Step → Type 0
OnGo Q (go_on ws t) = Q t
OnGo Q (closed ws) = Unit

module _ (Q R : Stream → Type 0) where
  OnGo-map : (st : Step) → ((t : Stream) → Q t → R t) → OnGo Q st → OnGo R st
  OnGo-map (go_on ws t) f q = f t q
  OnGo-map (closed ws) f q = tt

OnGo-note : (Q : Stream → Type 0) (w : Bytes) (st : Step) → OnGo Q st → OnGo Q (note w st)
OnGo-note Q w (go_on ws t) q = q
OnGo-note Q w (closed ws) q = tt

is_login-map_some :
    (sent pass : Bytes) (found : Option Bytes)
    → is_login (map_some (λ p. (sent, p)) found) sent pass ≡ true
    → found ≡ some pass
unfolding is_login
is_login-map_some sent pass none h = absurd (ground arith)
is_login-map_some sent pass (some p) h = ap some (ground (arith, ==_iff pass p))

account-IsAccountOf :
    (accounts : Option (Store Bytes Bytes)) (own : Bytes × Bytes) (sent pass : Bytes)
    → is_login (account accounts own sent) sent pass ≡ true
    → IsAccountOf accounts own sent pass
unfolding account is_login
account-IsAccountOf (some m) own sent pass h = is_login-map_some sent pass (load sent m) h
account-IsAccountOf none (user, password) sent pass h =
    ground (arith, ==_iff sent user, ==_iff pass password)

is_login-IsAccount :
    (l : Login) (sent pass : Bytes)
    → is_login (expected l sent) sent pass ≡ true
    → IsAccount l sent pass
unfolding expected
is_login-IsAccount l sent pass h = account-IsAccountOf l.accounts (l.user, l.password) sent pass h

-- The message of a name and a password, in front of `rest`.
abbrev pub auth_message : Bytes → Bytes → Bytes → Bytes
auth_message sent pass rest = length sent ∷ (sent ++ (length pass ∷ (pass ++ rest)))

module _ (l : Login) (writes : Bool) where
  auth_answer_lem :
      (sent pass : Bytes) (s : Stream)
      → OnGo (λ t. IsAccount l sent pass × (t ≡ s)) (auth_answer l writes sent pass s)
  unfolding auth_answer
  auth_answer_lem sent pass s =
      if_both (OnGo (λ t. IsAccount l sent pass × (t ≡ s))) (not (is_some (expected l sent))) _ _ tt
        (elim (Bool-cases (is_login (expected l sent) sent pass)) [
          | inl e ↦ rw e (
              if_both (OnGo (λ t. IsAccount l sent pass × (t ≡ s))) writes _ _
                (is_login-IsAccount l sent pass e, refl) tt)
          | inr e ↦ rw e tt
        ])

  -- A name and a password of an account, in front of what is left.
  abbrev Sent : Bytes → Stream → Type 0
  Sent before t =
      (sent : Bytes) × (pass : Bytes) × IsAccount l sent pass
      × (before ≡ auth_message sent pass (flat t))

  auth_pass_lem :
      (sent : Bytes) (s : Stream) (n : ℕ) (r : Option Bytes × Stream)
      → Taken s r
      → Sized n r
      → OnGo
          (λ t.
            (pass : Bytes) × IsAccount l sent pass × (flat s ≡ pass ++ flat t) × (length pass ≡ n))
          (auth_pass l writes sent r)
  unfolding auth_pass
  auth_pass_lem sent s n (none, t) h z = tt
  auth_pass_lem sent s n (some pass, t) h z =
      OnGo-map (λ u. IsAccount l sent pass × (u ≡ t)) _ (auth_answer l writes sent pass t)
        (λ u (a, e). (pass, a, subst (λ v. flat s ≡ pass ++ flat v) (sym e) h, z))
        (auth_answer_lem sent pass t)

  auth_pass_len_lem :
      (sent : Bytes) (s : Stream) (r : Option Bytes × Stream)
      → Taken s r
      → Sized 1 r
      → OnGo
          (λ t. (pass : Bytes) × IsAccount l sent pass × (flat s ≡ length pass ∷ (pass ++ flat t)))
          (auth_pass_len l writes sent r)
  unfolding auth_pass_len
  auth_pass_len_lem sent s (none, t) h z = tt
  auth_pass_len_lem sent s (some [], t) h z = tt
  auth_pass_len_lem sent s (some (n ∷ x ∷ b), t) h z = absurd (omega arith)
  auth_pass_len_lem sent s (some (n ∷ []), t) h z =
      OnGo-map _ _ (auth_pass l writes sent (read_all n t))
        (λ u (pass, a, f, g). (pass, a, h ∙ ap (◌∷◌ n) f ∙ ap (λ i. i ∷ (pass ++ flat u)) (sym g)))
        (auth_pass_lem sent t n (read_all n t) (read_all-Taken n t) (read_all-Sized n t))

  auth_user_lem :
      (s : Stream) (n : ℕ) (r : Option Bytes × Stream)
      → Taken s r
      → Sized n r
      → OnGo (λ t. Sent (n ∷ flat s) t) (auth_user l writes r)
  unfolding auth_user
  auth_user_lem s n (none, t) h z = tt
  auth_user_lem s n (some sent, t) h z =
      OnGo-map _ _ (auth_pass_len l writes sent (read 1 t))
        (λ u (pass, a, f). (
          sent,
          pass,
          a,
          ap (◌∷◌ n) (h ∙ ap (◌++◌ sent) f)
              ∙ ap (λ i. i ∷ (sent ++ (length pass ∷ (pass ++ flat u)))) (sym z),
        ))
        (auth_pass_len_lem sent t (read 1 t) (read-Taken 1 t) (read_1-Sized t))

  auth_header_lem :
      (s : Stream) (r : Option Bytes × Stream)
      → Taken s r
      → Sized 2 r
      → OnGo
          (λ t. (before : Bytes) × (flat s ≡ 1 ∷ before) × Sent before t)
          (auth_header l writes r)
  unfolding auth_header
  auth_header_lem s (none, t) h z = tt
  auth_header_lem s (some [], t) h z = tt
  auth_header_lem s (some (v ∷ []), t) h z = tt
  auth_header_lem s (some (v ∷ n ∷ x ∷ b), t) h z = absurd (omega arith)
  auth_header_lem s (some (v ∷ n ∷ []), t) h z = elim (Bool-cases (nat_beq v 1)) [
    | inr e ↦ rw e tt
    | inl e ↦ rw e (
        OnGo-map _ _ (auth_user l writes (read_all n t))
          (λ u a. (n ∷ flat t, h ∙ ap (λ i. i ∷ n ∷ flat t) (ground (arith, e)), a))
          (auth_user_lem t n (read_all n t) (read_all-Taken n t) (read_all-Sized n t)))
  ]

  conn_methods_lem :
      (s : Stream) (n : ℕ) (r : Option Bytes × Stream)
      → needs_auth l ≡ true
      → Taken s r
      → OnGo
          (λ t.
            (ms : Bytes) × (before : Bytes) × (length ms ≡ n)
            × (flat s ≡ ms ++ (1 ∷ before))
            × Sent before t)
          (conn_methods l writes n r)
  unfolding conn_methods auth
  conn_methods_lem s n (none, t) a h = tt
  conn_methods_lem s n (some ms, t) a h = elim (Bool-cases (nat_beq (length ms) n)) [
    | inr e ↦ rw e tt
    | inl e ↦
        rw (e, a)
          (OnGo-note _ (5 ∷ 2 ∷ []) (auth_header l writes (read_all 2 t)) (
            OnGo-map _ _ (auth_header l writes (read_all 2 t))
              (λ u (before, f, g). (ms, before, ground (arith, e), h ∙ ap (◌++◌ ms) f, g))
              (auth_header_lem t (read_all 2 t) (read_all-Taken 2 t) (read_all-Sized 2 t))))
  ]

  conn_header_lem :
      (s : Stream) (r : Option Bytes × Stream)
      → needs_auth l ≡ true
      → Taken s r
      → Sized 2 r
      → OnGo
          (λ t.
            (ms : Bytes) × (before : Bytes) × (flat s ≡ 5 ∷ length ms ∷ (ms ++ (1 ∷ before)))
            × Sent before t)
          (conn_header l writes r)
  unfolding conn_header
  conn_header_lem s (none, t) a h z = tt
  conn_header_lem s (some [], t) a h z = tt
  conn_header_lem s (some (v ∷ []), t) a h z = tt
  conn_header_lem s (some (v ∷ n ∷ x ∷ b), t) a h z = absurd (omega arith)
  conn_header_lem s (some (v ∷ n ∷ []), t) a h z = elim (Bool-cases (nat_beq v 5)) [
    | inr e ↦ rw e tt
    | inl e ↦ rw e (
        OnGo-map _ _ (conn_methods l writes n (read n t))
          (λ u (ms, before, k, f, g). (
            ms,
            before,
            h
                ∙ ap (λ r. v ∷ n ∷ r) f
                ∙ ap (λ i. i ∷ n ∷ (ms ++ (1 ∷ before))) (ground (arith, e))
                ∙ ap (λ i. 5 ∷ i ∷ (ms ++ (1 ∷ before))) (sym k),
            g,
          ))
          (conn_methods_lem t n (read n t) a (read-Taken n t)))
  ]

  -- Where a login is asked for, a connection gets to its request only if its bytes were a greeting of
  -- version 5 with its methods, then the message with the name and the password of an account, and
  -- the request is read from what follows.
  pub negotiate_safe :
      (s t : Stream) (ws : List Bytes)
      → needs_auth l ≡ true
      → negotiate l writes s ≡ go_on ws t
      → (ms : Bytes) × (sent : Bytes) × (pass : Bytes) × IsAccount l sent pass
        × (flat s ≡ 5 ∷ length ms ∷ (ms ++ (1 ∷ auth_message sent pass (flat t))))
  unfolding negotiate
  negotiate_safe s t ws a e =
      let (ms, before, f, (sent, pass, g, k)) =
        subst
          (OnGo (λ u.
            (ms : Bytes) × (before : Bytes) × (flat s ≡ 5 ∷ length ms ∷ (ms ++ (1 ∷ before)))
            × Sent before u))
          e (conn_header_lem s (read_all 2 s) a (read_all-Taken 2 s) (read_all-Sized 2 s)) in
      (ms, sent, pass, g, f ∙ ap (λ r. 5 ∷ length ms ∷ (ms ++ (1 ∷ r))) k)
