-- ===== src/Socks/Stream.antt =====
-- A TCP connection as the pieces in which its bytes arrive: `Read` of package net gives what is left
-- of the piece at the front, at most as much as it is asked for, and an error where no piece is left.
-- `io.ReadFull` reads on until it has all that it was asked for.
use next_nps.Base.{
  leb, if◌then◌else◌, leb→le, Bool-cases, if_both, length, take, drop, length-append,
  take-append-drop, length-take, take-append, drop-append, Bytes, ℕ, zero, suc, ◌+◌, ◌-◌, ◌≡◌, refl,
  sym, ap, ◌∙◌, inl, inr, true, false, Option, none, some, List, [], ◌∷◌, ◌++◌, append_assoc, arith,
}

abbrev pub Stream : Type 0
Stream = List Bytes

-- The bytes that are still to come.
unfoldable pub flat : Stream → Bytes
flat [] = []
flat (c ∷ cs) = c ++ flat cs

-- `c.Read` into a buffer of `n` bytes.
unfoldable pub read : ℕ → Stream → Option Bytes × Stream
read zero s = (some [], s)
read (suc n) [] = (none, [])
read (suc n) ([] ∷ cs) = read (suc n) cs
read (suc n) ((x ∷ c) ∷ cs) = (some (take (suc n) (x ∷ c)), drop n c ∷ cs)

abbrev after_piece : Bytes → Option Bytes × Stream → Option Bytes × Stream
after_piece c (none, s) = (none, s)
after_piece c (some b, s) = (some (c ++ b), s)

-- `io.ReadFull` of `n` bytes.
unfoldable pub read_all : ℕ → Stream → Option Bytes × Stream
read_all zero s = (some [], s)
read_all (suc n) [] = (none, [])
read_all (suc n) (c ∷ cs) =
    let rest = after_piece c (read_all (suc n - length c) cs) in
    if leb (suc n) (length c) then (some (take (suc n) c), drop (suc n) c ∷ cs) else rest

-- What was taken stands in front of what is left, where the read has no error.
abbrev pub Taken : Stream → Option Bytes × Stream → Type 0
Taken s (none, t) = Unit
Taken s (some b, t) = flat s ≡ b ++ flat t

abbrev pub Sized : ℕ → Option Bytes × Stream → Type 0
Sized n (none, t) = Unit
Sized n (some b, t) = length b ≡ n

pub read-Taken : (n : ℕ) (s : Stream) → Taken s (read n s)
unfolding read flat
read-Taken zero s = refl
read-Taken (suc n) [] = tt
read-Taken (suc n) ([] ∷ cs) = read-Taken (suc n) cs
read-Taken (suc n) ((x ∷ c) ∷ cs) =
    ap (λ r. x ∷ r)
      (ap (λ r. r ++ flat cs) (sym (take-append-drop n c))
        ∙ append_assoc (take n c) (drop n c) (flat cs))

pub read_1-Sized : (s : Stream) → Sized 1 (read 1 s)
unfolding read
read_1-Sized [] = tt
read_1-Sized ([] ∷ cs) = read_1-Sized cs
read_1-Sized ((x ∷ c) ∷ cs) = refl

after_piece-Taken :
    (c : Bytes) (cs : Stream) (r : Option Bytes × Stream)
    → Taken cs r
    → Taken (c ∷ cs) (after_piece c r)
unfolding flat
after_piece-Taken c cs (none, t) h = tt
after_piece-Taken c cs (some b, t) h = ap (◌++◌ c) h ∙ sym (append_assoc c b (flat t))

after_piece-Sized :
    (c : Bytes) (n m : ℕ) (r : Option Bytes × Stream)
    → length c + m ≡ n
    → Sized m r
    → Sized n (after_piece c r)
after_piece-Sized c n m (none, t) e h = tt
after_piece-Sized c n m (some b, t) e h = omega (arith, length-append c b)

pub read_all-Taken : (n : ℕ) (s : Stream) → Taken s (read_all n s)
unfolding read_all flat
read_all-Taken zero s = refl
read_all-Taken (suc n) [] = tt
read_all-Taken (suc n) (c ∷ cs) =
    if_both (Taken (c ∷ cs)) (leb (suc n) (length c)) _ _
      (ap (λ r. r ++ flat cs) (sym (take-append-drop (suc n) c))
        ∙ append_assoc (take (suc n) c) (drop (suc n) c) (flat cs))
      (after_piece-Taken c cs (read_all (suc n - length c) cs)
        (read_all-Taken (suc n - length c) cs))

pub read_all-Sized : (n : ℕ) (s : Stream) → Sized n (read_all n s)
unfolding read_all
read_all-Sized zero s = refl
read_all-Sized (suc n) [] = tt
read_all-Sized (suc n) (c ∷ cs) = elim (Bool-cases (leb (suc n) (length c))) [
  | inl e ↦ rw e (omega (arith, length-take (suc n) c, leb→le (suc n) (length c) e))
  | inr e ↦ rw e (
      after_piece-Sized c (suc n) (suc n - length c) (read_all (suc n - length c) cs) (ground arith)
        (read_all-Sized (suc n - length c) cs))
]

-- A read of just what the piece at the front starts with.
pub read_front : (b r : Bytes) (cs : Stream) → read (length b) ((b ++ r) ∷ cs) ≡ (some b, r ∷ cs)
unfolding read
read_front [] r cs = refl
read_front (x ∷ b) r cs = rw (take-append (length b) b r refl, drop-append (length b) b r refl) refl

pub read_all_front :
    (b r : Bytes) (cs : Stream) → read_all (length b) ((b ++ r) ∷ cs) ≡ (some b, r ∷ cs)
unfolding read_all
read_all_front [] r cs = refl
read_all_front (x ∷ b) r cs =
    let e : leb (suc (length b)) (suc (length (b ++ r))) ≡ true =
      ground (arith, length-append b r) in
    rw (e, take-append (length b) b r refl, drop-append (length b) b r refl) refl

after_piece_nil : (r : Option Bytes × Stream) → after_piece [] r ≡ r
after_piece_nil (none, s) = refl
after_piece_nil (some b, s) = refl

-- An empty piece is passed over.
pub read_all_next : (n : ℕ) (cs : Stream) → read_all (suc n) ([] ∷ cs) ≡ read_all (suc n) cs
unfolding read_all
read_all_next n cs =
    let e : leb (suc n) 0 ≡ false = ground arith in
    let f : suc n - 0 ≡ suc n = omega arith in rw (e, f) (after_piece_nil (read_all (suc n) cs))
