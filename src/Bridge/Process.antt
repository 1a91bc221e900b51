-- ===== src/Bridge/Process.antt =====
-- The start of a client's connection: `cliProcess` of bridge/bridge.go, over the bytes that the
-- connection will deliver.
mod Keys
mod Tests
use next_nps.Db.{Db, get_id_by_verify_key}
use next_nps.Wire.{read_full, get_short_content, get_short_len_content}
use next_nps.Bridge.{Bridge, Effect, write, close, type_deal}
use next_nps.Base.{
  if◌then◌else◌, ◌==◌, Bytes, codes, ℕ, not, Option, none, some, List, [], ◌∷◌, ◌++◌, nat_eq,
  bytes_eq,
}
use next_nps.Base.Int.{ℤ, pos, ℤ_eq}

-- The tables, the bridge, and what was written and done.
abbrev pub Run : Type 0
Run = Db × Bridge × List Effect

abbrev before : List Effect → Run → Run
before es (db, b, fs) = (db, b, es ++ fs)

abbrev piece : Option (Bytes × Bytes) → Option Bytes
piece none = none
piece (some (b, rest)) = some b

-- What does not change on the way: MD5, the version of the program, the number and the address of
-- the connection, and the address of the p2p server.
pub record Setup : Type 0 where
  pub md5 : Bytes → Bytes
  pub version : Bytes
  pub conn : ℕ
  pub ip : Bytes
  pub svr_addr : Bytes

module _ (u : Setup) where
  run_type : Db → Bridge × List Effect → Run
  run_type db (b, es) = (db, b, es)

  -- The flag of four bytes; without it the connection stays open.
  with_flag : Db → Bridge → ℤ → Bytes → Option (Bytes × Bytes) → Run
  with_flag db b id vs none = (db, b, [])
  with_flag db b id vs (some (flag, rest)) =
      run_type db (
        type_deal u.md5 db b flag u.conn id vs (piece (get_short_content (pos 32) rest)) u.svr_addr)

  -- `verifyError` and `verifySuccess`.
  verified : Bridge → Bytes → Bytes → Db × Option ℤ → Run
  verified b vs rest (db, none) = (db, b, write u.conn (codes "vkey") ∷ [])
  verified b vs rest (db, some id) =
      before (write u.conn (codes "sucs") ∷ []) (with_flag db b id vs (read_full 4 rest))

  with_key : Db → Bridge → Bytes → Option (Bytes × Bytes) → Run
  with_key db b vs none = (db, b, close u.conn ∷ [])
  with_key db b vs (some (key, rest)) = verified b vs rest (get_id_by_verify_key u.md5 db key u.ip)

  with_client_version : Db → Bridge → Option (Bytes × Bytes) → Run
  with_client_version db b none = (db, b, close u.conn ∷ [])
  with_client_version db b (some (vs, rest)) =
      before (write u.conn (u.md5 u.version) ∷ [])
        (with_key db b vs (get_short_content (pos 32) rest))

  with_version : Db → Bridge → Option (Bytes × Bytes) → Run
  with_version db b none = (db, b, close u.conn ∷ [])
  with_version db b (some (v, rest)) =
      if not (v == u.version)
      then (db, b, close u.conn ∷ [])
      else with_client_version db b (get_short_len_content rest)

  with_test_flag : Db → Bridge → Option (Bytes × Bytes) → Run
  with_test_flag db b none = (db, b, [])
  with_test_flag db b (some (t, rest)) = with_version db b (get_short_len_content rest)

  pub cli_process : Db → Bridge → Bytes → Run
  cli_process db b s = with_test_flag db b (get_short_content (pos 3) s)
