-- ===== src/Tls/Reads.antt =====
-- What the reads of Slices give where they are in range.
use next_nps.Tls.Slices.{Verdict, with_byte, with_uint16, with_slice, with_rest}
use next_nps.Base.{
  leb, length, get_elem?, take, drop, Bytes, ℕ, zero, suc, ◌+◌, ◌-◌, ◌*◌, ◌≤◌, ◌<◌, ◌≡◌, refl, true,
  ◌&&◌, some, [], ◌∷◌, arith,
}

pub get_elem?_lem : (d : Bytes) (i : ℕ) → i < length d → (b : ℕ) × (get_elem? d i ≡ some b)
get_elem?_lem [] i h = absurd (omega arith)
get_elem?_lem (x ∷ d) zero h = (x, refl)
get_elem?_lem (x ∷ d) (suc i) h = get_elem?_lem d i (omega arith)

pub with_byte_at :
    (d : Bytes) (i b : ℕ) (k : ℕ → Verdict) → get_elem? d i ≡ some b → with_byte d i k ≡ k b
unfolding with_byte
with_byte_at d i b k h = rw h refl

pub with_uint16_at :
    (d : Bytes) (i a b : ℕ) (k : ℕ → Verdict)
    → get_elem? d i ≡ some a
    → get_elem? d (suc i) ≡ some b
    → with_uint16 d i k ≡ k (256 * a + b)
unfolding with_uint16 with_byte
with_uint16_at d i a b k h g = rw h (rw g refl)

pub with_slice_in :
    (d : Bytes) (lo hi : ℕ) (k : Bytes → Verdict)
    → lo ≤ hi
    → hi ≤ length d
    → with_slice d lo hi k ≡ k (take (hi - lo) (drop lo d))
unfolding with_slice
with_slice_in d lo hi k l h =
    let t : (leb lo hi && leb hi (length d)) ≡ true = ground arith in rw t refl

pub with_rest_in :
    (d : Bytes) (lo : ℕ) (k : Bytes → Verdict) → lo ≤ length d → with_rest d lo k ≡ k (drop lo d)
unfolding with_rest
with_rest_in d lo k h = let t : leb lo (length d) ≡ true = ground arith in rw t refl
