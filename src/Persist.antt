-- ===== src/Persist.antt =====
-- The files of lib/file/file.go: `storeSyncMapToFile` writes each record that is to be stored with
-- a line break and the separator behind it, and `loadSyncMapFromFile` splits at those. Coding a
-- record is encoding/json, a parameter. What it leaves out of a record is said by a function from
-- the record to the one that comes back.
mod Tests
use next_nps.Base.{
  All, Bytes, split_seq, Store, filter_values, Lacks, split_seq_piece, ◌≡◌, refl, ap, ◌∙◌, Bool,
  not, Option, none, some, List, [], ◌∷◌, ◌++◌, map,
}
use next_nps.Base.Int.{ℤ, pos, ℤ_eq}
use next_nps.File.{Tunnel, Host, Target}
use next_nps.Wire.{seq}

-- `json.Marshal` and `json.Unmarshal` for one type of records; `none` is an error.
pub record Codec {ℓ} (A : Type ℓ) : Type ℓ where
  pub marshal : A → Option Bytes
  pub unmarshal : Bytes → Option A

-- "\n" and CONN_DATA_SEQ.
abbrev pub record_end : Bytes
record_end = b'\n' ∷ seq

-- The fields of a record that encoding/json passes on: `nowIndex` is not exported.
abbrev pub saved_target : Target → Target
saved_target t = record t { now_index = pos 0 }

abbrev pub saved_tunnel : Tunnel → Tunnel
saved_tunnel t = record t { target = saved_target t.target }

module _ {ℓ} {A : Type ℓ} (c : Codec A) where
  with_record : Option Bytes → Bytes → Bytes
  with_record none rest = rest
  with_record (some b) rest = b ++ (record_end ++ rest)

  -- The records one after the other; one that has no code is left out.
  store_records : List A → Bytes
  unfolding with_record
  store_records [] = []
  store_records (a ∷ xs) = with_record (c.marshal a) (store_records xs)

  -- The bytes of the file, from the table in the order of `Range`; `no_store` is the field of the
  -- record.
  pub store_sync_map : (A → Bool) → Store ℤ A → Bytes
  store_sync_map no_store m = store_records (filter_values (λ a. not (no_store a)) m)

  -- The records that the callback of a load can read.
  unmarshal_all : List Bytes → List A
  unmarshal_all [] = []
  unmarshal_all (p ∷ ps) =
      let rest = unmarshal_all ps in elim (c.unmarshal p) [ none ↦ rest | some a ↦ a ∷ rest ]

  pub load_records : Bytes → List A
  load_records file = unmarshal_all (split_seq 0 record_end file)

  module _ (saved : A → A) where
    -- What encoding/json promises of a record whose texts are UTF-8: it has a code, which holds no
    -- line break, and from which the fields that are passed on come back.
    abbrev pub IsCoded : A → Type ℓ
    IsCoded a =
        (b : Bytes) × (c.marshal a ≡ some b) × (c.unmarshal b ≡ some (saved a)) × Lacks b'\n' b

    kept_records :
        (xs : List A)
        → c.unmarshal [] ≡ none
        → All IsCoded xs
        → load_records (store_records xs) ≡ map saved xs
    unfolding load_records store_records unmarshal_all split_seq with_record
    kept_records [] h a = rw h refl
    kept_records (x ∷ xs) h ((b, e, back, line), a) =
        ap (λ o. load_records (with_record o (store_records xs))) e
        ∙ ap unmarshal_all (split_seq_piece b'\n' seq b (store_records xs) line)
        ∙ rw (unmarshal_all, back) (ap (◌∷◌ (saved x)) (kept_records xs h a))

    -- Where encoding/json passes a record on but for the fields that it leaves out, and takes the empty
    -- text for none: what is loaded from a file are the records of the table that was stored, in the same
    -- order and nothing more, less those that are not to be stored and with the fields that are passed on.
    pub load_records-store_sync_map :
        (no_store : A → Bool) (m : Store ℤ A)
        → c.unmarshal [] ≡ none
        → All IsCoded (filter_values (λ a. not (no_store a)) m)
        → load_records (store_sync_map no_store m)
          ≡ map saved (filter_values (λ a. not (no_store a)) m)
    unfolding store_sync_map
    load_records-store_sync_map no_store m h a =
        kept_records (filter_values (λ x. not (no_store x)) m) h a
