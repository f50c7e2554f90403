-- ===== src/Libc/Fields.antt =====
-- Rows of numbers: what a printed row reads back as.
use rookietop.Common.{
  ℕ, zero, suc, replicate, ◌∙◌, ◌≤◌, ◌≡◌, refl, List, [], ◌∷◌, ◌++◌, arith, length,
}
use mathlib.Core.List.{append_assoc}
use rookietop.Libc.Chars.{Bytes, is_digit, is_space}
use rookietop.Libc.Decimal.{decimal, EndsNumber}
use rookietop.Libc.Numbers.{u64_max, scan_fields, scan_u64, scan_u64-decimal, scan_u64-space}

-- Each number behind a space.
unfoldable pub row : List ℕ → Bytes
row [] = []
row (v ∷ vs) = 32 ∷ (decimal v ++ row vs)

abbrev pub AllU64 : List ℕ → Type 0
AllU64 [] = Unit
AllU64 (v ∷ vs) = (v ≤ u64_max) × AllU64 vs

EndsNumber-row : (vs : List ℕ) (rest : Bytes) → EndsNumber rest → EndsNumber (row vs ++ rest)
unfolding row is_digit
EndsNumber-row [] rest h = h
EndsNumber-row (v ∷ vs) rest h = refl

-- Blanks before a number are passed over.
pub scan_u64-blanks : (pad : ℕ) (s : Bytes) → scan_u64 (replicate pad 32 ++ s) ≡ scan_u64 s
scan_u64-blanks zero s = refl
scan_u64-blanks (suc pad) s =
    scan_u64-space 32 (replicate pad 32 ++ s) (unfold is_space in refl) ∙ scan_u64-blanks pad s

pub scan_fields-blanks :
    (n pad : ℕ) (s : Bytes) → scan_fields n (replicate pad 32 ++ s) ≡ scan_fields n s
unfolding scan_fields
scan_fields-blanks zero pad s = refl
scan_fields-blanks (suc n) pad s = ground (arith, scan_u64-blanks pad s)

pub scan_fields-row :
    (vs : List ℕ) (rest : Bytes)
    → AllU64 vs
    → EndsNumber rest
    → scan_fields (length vs) (row vs ++ rest) ≡ vs
unfolding scan_fields row is_space
scan_fields-row [] rest h e = refl
scan_fields-row (v ∷ vs) rest h e = ground (
  arith,
  append_assoc (decimal v) (row vs) rest,
  scan_u64-space 32 ((decimal v ++ row vs) ++ rest) refl,
  scan_u64-decimal v (row vs ++ rest) h.0 (EndsNumber-row vs rest e),
  scan_fields-row vs rest h.1 e,
)
