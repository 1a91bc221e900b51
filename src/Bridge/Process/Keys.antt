-- ===== src/Bridge/Process/Keys.antt =====
-- Which connections get past `cliProcess` of bridge/bridge.go.
use next_nps.File.{Client}
use next_nps.Db.{Db, has_verify_val, get_id_by_verify_key}
use next_nps.Wire.{get_len, read_full, get_short_content, get_short_len_content}
use next_nps.Bridge.{Bridge, write}
use next_nps.Bridge.Process.{
  Run, before, Setup, verified, with_key, with_client_version, with_version, with_test_flag,
  cli_process,
}
use next_nps.Base.{
  find_value-some, leb, leb→le, ◌==◌, if_both, if_split, length, take-append-drop, length-take,
  Bytes, bytes_beq_iff, find_value, map_some, ℕ, ◌≡◌, refl, sym, ap, ◌∙◌, ◌⊎◌, inl, inr, true, not,
  Option, none, some, [], ◌∷◌, ◌++◌, append_assoc, arith, nat_eq, bytes_eq,
}
use next_nps.Base.Int.{ℤ, pos, negsuc, ℤ_eq}

-- What a read leaves is the end of what there was, and what it took stands in front of it.
abbrev Front : Bytes → Option (Bytes × Bytes) → Type 0
Front s none = Unit
Front s (some (b, rest)) = s ≡ b ++ rest

abbrev Rest : Bytes → Option (Bytes × Bytes) → Type 0
Rest s none = Unit
Rest s (some (b, rest)) = (pre : Bytes) × (s ≡ pre ++ rest)

abbrev Sized : ℕ → Option (Bytes × Bytes) → Type 0
Sized n none = Unit
Sized n (some (b, rest)) = length b ≡ n

read_full-Front : (n : ℕ) (s : Bytes) → Front s (read_full n s)
unfolding read_full
read_full-Front n s = if_both (Front s) (leb n (length s)) _ _ (sym (take-append-drop n s)) tt

read_full-Sized : (n : ℕ) (s : Bytes) → Sized n (read_full n s)
unfolding read_full
read_full-Sized n s =
    if_split (Sized n) (leb n (length s)) _ _
      (λ e. omega (arith, length-take n s, leb→le n (length s) e)) (λ e. tt)

get_short_content-Front : (n : ℕ) (s : Bytes) → Front s (get_short_content (pos n) s)
unfolding get_short_content
get_short_content-Front n s = if_both (Front s) (leb n 32768) _ _ (read_full-Front n s) tt

get_short_content-Sized : (n : ℕ) (s : Bytes) → Sized n (get_short_content (pos n) s)
unfolding get_short_content
get_short_content-Sized n s = if_both (Sized n) (leb n 32768) _ _ (read_full-Sized n s) tt

Front-Rest : (pre s : Bytes) (o : Option (Bytes × Bytes)) → Front s o → Rest (pre ++ s) o
Front-Rest pre s none h = tt
Front-Rest pre s (some (b, rest)) h = (pre ++ b, ap (◌++◌ pre) h ∙ sym (append_assoc pre b rest))

content-Rest : (l : ℤ) (pre s : Bytes) → Rest (pre ++ s) (get_short_content l s)
unfolding get_short_content
content-Rest (pos n) pre s = Front-Rest pre s _ (get_short_content-Front n s)
content-Rest (negsuc n) pre s = tt

get_short_len_content-Rest : (s : Bytes) → Rest s (get_short_len_content s)
unfolding get_short_len_content get_len
get_short_len_content-Rest (a ∷ b ∷ c ∷ d ∷ s) = content-Rest _ (a ∷ b ∷ c ∷ d ∷ []) s
get_short_len_content-Rest [] = tt
get_short_len_content-Rest (a ∷ []) = tt
get_short_len_content-Rest (a ∷ b ∷ []) = tt
get_short_len_content-Rest (a ∷ b ∷ c ∷ []) = tt

module _ (u : Setup) where
  -- Somewhere in the bytes stand the 32 that are the hash of the key of an enabled client of the
  -- table.
  abbrev pub SentKey : Db → Bytes → Type 0
  SentKey db s =
      (pre : Bytes) × (key : Bytes) × (rest : Bytes) × (v : Client) × (s ≡ pre ++ (key ++ rest))
      × (length key ≡ 32)
      × (find_value (has_verify_val u.md5 key) db.clients ≡ some v)
      × (u.md5 v.verify_key ≡ key)
      × (v.status ≡ true)

  abbrev Guarded : Db → Bridge → Bytes → Run → Type 0
  Guarded db b s (db', b', es) = (b' ≡ b) ⊎ SentKey db s

  -- What holds of the end of the bytes holds of all.
  later :
      (db : Db) (b : Bridge) (s pre rest : Bytes) (r : Run)
      → s ≡ pre ++ rest
      → Guarded db b rest r
      → Guarded db b s r
  later db b s pre rest (db', b', es) e (inl h) = inl h
  later db b s pre rest (db', b', es) e (inr (p, key, q, v, f, l, g, h, k)) =
      inr
        (pre ++ p, key, q, v, e ∙ ap (◌++◌ pre) f ∙ sym (append_assoc pre p (key ++ q)), l, g, h, k)

  verified-Guarded :
      (db db' : Db) (b : Bridge) (vs s rest key : Bytes) (o : Option Client)
      → s ≡ key ++ rest
      → length key ≡ 32
      → find_value (has_verify_val u.md5 key) db.clients ≡ o
      → Guarded db b s (verified u b vs rest (db', map_some (λ (v : Client). v.id) o))
  unfolding verified has_verify_val
  verified-Guarded db db' b vs s rest key none e l f = inl refl
  verified-Guarded db db' b vs s rest key (some v) e l f =
      let h = find_value-some (has_verify_val u.md5 key) db.clients v f in
      inr (
        [],
        key,
        rest,
        v,
        e,
        l,
        f,
        ground (arith, h, bytes_beq_iff (u.md5 v.verify_key) key),
        ground (arith, h),
      )

  with_key-Guarded :
      (db : Db) (b : Bridge) (vs s : Bytes) (o : Option (Bytes × Bytes))
      → Front s o
      → Sized 32 o
      → Guarded db b s (with_key u db b vs o)
  unfolding with_key get_id_by_verify_key
  with_key-Guarded db b vs s none h l = inl refl
  with_key-Guarded db b vs s (some (key, rest)) h l =
      verified-Guarded db _ b vs s rest key (find_value (has_verify_val u.md5 key) db.clients) h l
        refl

  with_client_version-Guarded :
      (db : Db) (b : Bridge) (s : Bytes) (o : Option (Bytes × Bytes))
      → Rest s o
      → Guarded db b s (with_client_version u db b o)
  unfolding with_client_version
  with_client_version-Guarded db b s none h = inl refl
  with_client_version-Guarded db b s (some (vs, rest)) (pre, e) =
      later db b s pre rest
        (before (write u.conn (u.md5 u.version) ∷ [])
          (with_key u db b vs (get_short_content (pos 32) rest)))
        e
        (with_key-Guarded db b vs rest (get_short_content (pos 32) rest)
          (get_short_content-Front 32 rest) (get_short_content-Sized 32 rest))

  with_version-Guarded :
      (db : Db) (b : Bridge) (s : Bytes) (o : Option (Bytes × Bytes))
      → Rest s o
      → Guarded db b s (with_version u db b o)
  unfolding with_version
  with_version-Guarded db b s none h = inl refl
  with_version-Guarded db b s (some (v, rest)) (pre, e) =
      if_both (Guarded db b s) (not (v == u.version)) _ _ (inl refl) (
        later db b s pre rest (with_client_version u db b (get_short_len_content rest)) e (
          with_client_version-Guarded db b rest (get_short_len_content rest)
            (get_short_len_content-Rest rest)))

  with_test_flag-Guarded :
      (db : Db) (b : Bridge) (s : Bytes) (o : Option (Bytes × Bytes))
      → Rest s o
      → Guarded db b s (with_test_flag u db b o)
  unfolding with_test_flag
  with_test_flag-Guarded db b s none h = inl refl
  with_test_flag-Guarded db b s (some (t, rest)) (pre, e) =
      later db b s pre rest (with_version u db b (get_short_len_content rest)) e (
        with_version-Guarded db b rest (get_short_len_content rest)
          (get_short_len_content-Rest rest))

  -- Whatever bytes a connection sends: the sessions of the bridge stay as they are, or among the
  -- bytes are 32 that are the hash of the key of a client that is in the table and enabled.
  pub cli_process_guarded :
      (db : Db) (b : Bridge) (s : Bytes) → ((cli_process u db b s).1 ≡ b) ⊎ SentKey db s
  unfolding cli_process
  cli_process_guarded db b s =
      with_test_flag-Guarded db b s (get_short_content (pos 3) s)
        (Front-Rest [] s _ (get_short_content-Front 3 s))
