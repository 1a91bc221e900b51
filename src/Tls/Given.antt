-- ===== src/Tls/Given.antt =====
-- The verdicts of `Unmarshal` that are not a panic, and the reads that give one.
use next_nps.Tls.Slices.{
  Hello, Verdict, accepted, refused, and_then, with_byte, with_uint16, with_slice, with_rest,
}
use next_nps.Tls.Reads.{get_elem?_lem, with_byte_at, with_uint16_at, with_slice_in, with_rest_in}
use next_nps.Base.{
  if◌then◌else◌, length, take, drop, length-take, length-drop, Bytes, ℕ, suc, ◌+◌, ◌-◌, ◌*◌, ◌≤◌,
  ◌<◌, ◌≡◌, refl, sym, subst, Bool, true, false, arith,
}

-- A verdict that is given: no read was out of range, and no loop ran out of rounds.
pub data IsGiven : Verdict → Type 0 where
  accepts : (m : Hello) → IsGiven (accepted m)
  refuses : (m : Hello) → IsGiven (refused m)

pub guard-IsGiven :
    (b : Bool) {x y : Verdict} → IsGiven x → (b ≡ false → IsGiven y) → IsGiven (if b then x else y)
guard-IsGiven true p q = p
guard-IsGiven false p q = q refl

pub with_byte-IsGiven :
    (d : Bytes) (i : ℕ) {k : ℕ → Verdict}
    → i < length d
    → ((b : ℕ) → IsGiven (k b))
    → IsGiven (with_byte d i k)
with_byte-IsGiven d i {k = k} h s =
    let (b, e) = get_elem?_lem d i h in subst IsGiven (sym (with_byte_at d i b k e)) (s b)

pub with_uint16-IsGiven :
    (d : Bytes) (i : ℕ) {k : ℕ → Verdict}
    → suc i < length d
    → ((n : ℕ) → IsGiven (k n))
    → IsGiven (with_uint16 d i k)
with_uint16-IsGiven d i {k = k} h s =
    let (a, e) = get_elem?_lem d i (omega arith) in
    let (b, g) = get_elem?_lem d (suc i) h in
    subst IsGiven (sym (with_uint16_at d i a b k e g)) (s (256 * a + b))

pub with_slice-IsGiven :
    (d : Bytes) (lo hi : ℕ) {k : Bytes → Verdict}
    → lo ≤ hi
    → hi ≤ length d
    → ((e : Bytes) → length e ≡ hi - lo → IsGiven (k e))
    → IsGiven (with_slice d lo hi k)
with_slice-IsGiven d lo hi {k = k} l h s =
    let e : length (take (hi - lo) (drop lo d)) ≡ hi - lo =
      omega (arith, length-take (hi - lo) (drop lo d), length-drop lo d) in
    subst IsGiven (sym (with_slice_in d lo hi k l h)) (s (take (hi - lo) (drop lo d)) e)

pub with_rest-IsGiven :
    (d : Bytes) (lo : ℕ) {k : Bytes → Verdict}
    → lo ≤ length d
    → ((e : Bytes) → length e ≡ length d - lo → IsGiven (k e))
    → IsGiven (with_rest d lo k)
with_rest-IsGiven d lo {k = k} h s =
    subst IsGiven (sym (with_rest_in d lo k h)) (s (drop lo d) (length-drop lo d))

pub and_then-IsGiven :
    {v : Verdict} {k : Hello → Verdict}
    → IsGiven v
    → ((m : Hello) → IsGiven (k m))
    → IsGiven (and_then v k)
unfolding and_then
and_then-IsGiven (accepts m) s = s m
and_then-IsGiven (refuses m) s = refuses m
