-- ===== src/Web/Login/Guard.antt =====
-- Who gets in by `doLogin` of web/controllers/login.go.
use next_nps.File.{Client}
use next_nps.Db.{Db}
use next_nps.Web.Login.{
  LoginSession, WebConfig, Logins, login_fits, user_session, log_in, finish, admit, is_admin_login,
  is_locked, login_from, do_login,
}
use next_nps.Base.{
  find_value-some, if_both, if_split, Bytes, codes, bytes_beq_iff, load, find_value, ℕ, ◌≡◌, refl,
  sym, ◌∙◌, ◌⊎◌, inl, inr, Bool, true, false, Option, none, some, arith, nat_eq, bytes_eq,
}
use next_nps.Base.Int.{ℤ_eq}

-- A client of the table that may log in so.
abbrev UserLogin : WebConfig → Db → Bytes → Bytes → Type 0
UserLogin cfg db username password =
    (v : Client) × (find_value (login_fits username password) db.clients ≡ some v)
    × (cfg.allow_user_login ≡ true)
    × (v.status ≡ true)
    × (v.no_display ≡ false)
    × ((v.web_user_name ≡ username) × (v.web_password ≡ password)
        ⊎ (username ≡ codes "user") × (v.verify_key ≡ password))

abbrev pub MayLogIn : WebConfig → Db → Bytes → Bytes → Type 0
MayLogIn cfg db username password =
    (username ≡ cfg.web_username) × (password ≡ cfg.web_password)
    ⊎ UserLogin cfg db username password

login_fits_lem :
    (username password : Bytes) (v : Client)
    → login_fits username password v ≡ true
    → (v.status ≡ true)
      × (v.no_display ≡ false)
      × ((v.web_user_name ≡ username) × (v.web_password ≡ password)
          ⊎ (username ≡ codes "user") × (v.verify_key ≡ password))
unfolding login_fits
login_fits_lem username password v h = ground (
  arith,
  h,
  bytes_beq_iff username (codes "user"),
  bytes_beq_iff v.verify_key password,
  bytes_beq_iff v.web_password password,
  bytes_beq_iff v.web_user_name username,
)

module _ (cfg : WebConfig) (db : Db) (username password : Bytes) where
  user_session_sound :
      (s : LoginSession) (o : Option Client)
      → cfg.allow_user_login ≡ true
      → find_value (login_fits username password) db.clients ≡ o
      → (user_session s o).1 ≡ true
      → UserLogin cfg db username password
  unfolding user_session
  user_session_sound s none a e h = absurd (ground arith)
  user_session_sound s (some v) a e h =
      let (p, q, r) =
        login_fits_lem username password v
          (find_value-some (login_fits username password) db.clients v e) in
      (v, e, a, p, q, r)

  log_in_sound :
      (s : LoginSession)
      → (log_in cfg db username password s).1 ≡ true
      → MayLogIn cfg db username password
  unfolding log_in
  log_in_sound s =
      if_split (λ (r : LoginSession × Bool). r.1 ≡ true → MayLogIn cfg db username password)
        (is_admin_login cfg username password) _ _
        (λ e h. inl (
          ground (
            arith,
            bytes_beq_iff password cfg.web_password,
            bytes_beq_iff username cfg.web_username,
          )))
        (λ e.
          if_split (λ (r : LoginSession × Bool). r.1 ≡ true → MayLogIn cfg db username password)
            cfg.allow_user_login _ _
            (λ a h. inr (
              user_session_sound s (find_value (login_fits username password) db.clients) a refl h))
            (λ a h. absurd (ground arith)))

  finish_result :
      (now : ℕ) (ip : Bytes) (explicit : Bool) (s : Logins) (r : LoginSession × Bool)
      → (finish now ip explicit s r).1 ≡ r.1
  unfolding finish
  finish_result now ip explicit s (session, true) = refl
  finish_result now ip explicit s (session, false) = refl

  login_from_sound :
      (now : ℕ) (ip input_ip : Bytes) (explicit : Bool) (s : Logins)
      → (login_from cfg db now ip username password input_ip explicit s).1 ≡ true
      → MayLogIn cfg db username password
  unfolding login_from
  login_from_sound now ip input_ip explicit s =
      if_both (λ (r : Logins × Bool). r.1 ≡ true → MayLogIn cfg db username password)
        (is_locked (load ip s.ip_record)) _ _ (λ h. absurd (ground arith))
        (λ h. log_in_sound s.session (
          sym (
            finish_result now ip explicit (admit cfg now username password input_ip s)
              (log_in cfg db username password s.session))
          ∙ h))

  -- Whoever is logged in by a name and a password: they are the administrator's, or, where users may
  -- log in, those of a client of the table that is enabled and not hidden, or `user` and its key.
  pub do_login_sound :
      (chosen : Bool) (now : ℕ) (ip input_ip : Bytes) (explicit : Bool) (s : Logins)
      → (do_login cfg db chosen now ip username password input_ip explicit s).1 ≡ true
      → MayLogIn cfg db username password
  unfolding do_login
  do_login_sound chosen now ip input_ip explicit s h = login_from_sound now ip input_ip explicit _ h
