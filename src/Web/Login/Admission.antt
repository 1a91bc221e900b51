-- ===== src/Web/Login/Admission.antt =====
-- Whom `doLogin` of web/controllers/login.go lets in to the bridge.
use next_nps.Db.{Db}
use next_nps.Db.Routing.{get_ip_by_addr}
use next_nps.Web.Login.{WebConfig}
use next_nps.Base.{Bytes, Store, load, ℕ, ◌+◌, ◌≡◌, ◌≢◌, ◌⊎◌, some, nat_eq, bytes_eq}

module _ (cfg : WebConfig) (username password : Bytes) where
  -- What may become of the addresses that the bridge lets in.
  pub Admits : ℕ → Bytes → Store Bytes ℕ → Store Bytes ℕ → Type 0
  Admits now input_ip m m' =
      (m' ≡ m)
      ⊎ (username ≡ cfg.web_username)
        × (password ≡ cfg.web_password)
        × (load (get_ip_by_addr input_ip) m' ≡ some (now + 7200))
        × ((k : Bytes) → get_ip_by_addr input_ip ≢ k → load k m' ≡ load k m)
