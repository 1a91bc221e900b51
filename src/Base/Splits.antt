-- ===== src/Base/Splits.antt =====
-- What `split_seq` does to texts behind separators.
use Prim.Native.Nat.{ℕ, zero}
use mathlib.Core.Path.{◌≡◌, refl, ap, ◌∙◌}
use mathlib.Core.Logic.{◌≢◌}
use mathlib.Core.Bool.{true, false}
use mathlib.Core.List.{[], ◌∷◌, ◌++◌}
use native.Mathlib.Omega.{arith}
use next_nps.Base.Lists.{length, All}
use next_nps.Base.Text.{Bytes, has_prefix, cons_head, split_seq}

-- The byte `x` does not occur.
abbrev pub Lacks : ℕ → Bytes → Type 0
Lacks x = All (λ c. c ≢ x)

has_prefix-append : (p rest : Bytes) → has_prefix p (p ++ rest) ≡ true
unfolding has_prefix
has_prefix-append [] rest = refl
has_prefix-append (c ∷ p) rest = ground (arith, has_prefix-append p rest)

split_seq_skip :
    (sep a rest : Bytes) → split_seq (length a) sep (a ++ rest) ≡ split_seq zero sep rest
unfolding split_seq
split_seq_skip sep [] rest = refl
split_seq_skip sep (c ∷ a) rest = split_seq_skip sep a rest

split_seq_here :
    (x : ℕ) (sep rest : Bytes)
    → split_seq zero (x ∷ sep) (x ∷ (sep ++ rest)) ≡ [] ∷ split_seq zero (x ∷ sep) rest
unfolding split_seq
split_seq_here x sep rest =
    rw (split_seq, has_prefix-append (x ∷ sep) rest)
      (ap (◌∷◌ []) (
        ap (λ k. split_seq k (x ∷ sep) (sep ++ rest)) (omega arith)
        ∙ split_seq_skip (x ∷ sep) sep rest))

has_prefix_miss : (x c : ℕ) (sep s : Bytes) → c ≢ x → has_prefix (x ∷ sep) (c ∷ s) ≡ false
unfolding has_prefix
has_prefix_miss x c sep s h = ground arith

-- A piece that lacks the first byte of the separator is split off whole.
pub split_seq_piece :
    (x : ℕ) (sep v rest : Bytes)
    → Lacks x v
    → split_seq zero (x ∷ sep) (v ++ (x ∷ (sep ++ rest))) ≡ v ∷ split_seq zero (x ∷ sep) rest
unfolding split_seq
split_seq_piece x sep [] rest h = split_seq_here x sep rest
split_seq_piece x sep (c ∷ v) rest h =
    rw (split_seq, has_prefix_miss x c sep (v ++ (x ∷ (sep ++ rest))) h.0)
      (ap (cons_head c) (split_seq_piece x sep v rest h.1))
