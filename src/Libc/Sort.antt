-- ===== src/Libc/Sort.antt =====
-- qsort: a parameter of the functions that call it, and what the C library says of it.
use rookietop.Common.{ℕ, ◌≤◌, ◌≡◌, ◌≢◌, List, [], ◌∷◌, ltb, if◌then◌else◌, arith}
use mathlib.Core.List.{Perm}

-- The sign of the `int` that a comparison returns.
pub data Sign : Type 0 where
  negative equal positive : Sign

-- The sign of the comparison the other way round.
abbrev pub opposite : Sign → Sign
opposite negative = positive
opposite equal = equal
opposite positive = negative

-- (left > right) - (left < right)
unfoldable pub compare_number : ℕ → ℕ → Sign
compare_number left right =
    if ltb right left then positive else if ltb left right then negative else equal

-- qsort(3), given the comparison
abbrev pub Qsort : Type 0 → Type 0
Qsort A = (A → A → Sign) → List A → List A

module _ {A : Type 0} where
  -- What qsort asks of a comparison.
  pub record IsConsistent (compare : A → A → Sign) : Type 0 where
    pub flips : (a b : A) → compare b a ≡ opposite (compare a b)
    pub trans :
        (a b c : A) → compare a b ≢ positive → compare b c ≢ positive → compare a c ≢ positive

  module _ (compare : A → A → Sign) where
    abbrev pub NoneAbove : A → List A → Type 0
    NoneAbove x [] = Unit
    NoneAbove x (y ∷ ys) = (compare x y ≢ positive) × NoneAbove x ys

    abbrev pub IsSortedBy : List A → Type 0
    IsSortedBy [] = Unit
    IsSortedBy (x ∷ xs) = NoneAbove x xs × IsSortedBy xs

  -- It keeps the items, and sorts them by any consistent comparison; the order of items that
  -- compare equal is left open.
  pub record IsQsort (qsort : Qsort A) : Type 0 where
    pub perm :
        (compare : A → A → Sign) (xs : List A) → IsConsistent compare → Perm (qsort compare xs) xs
    pub sorted :
        (compare : A → A → Sign) (xs : List A)
        → IsConsistent compare
        → IsSortedBy compare (qsort compare xs)

module _ {A : Type 0} (key : A → ℕ) where
  abbrev pub AllFrom : ℕ → List A → Type 0
  AllFrom k [] = Unit
  AllFrom k (x ∷ xs) = (k ≤ key x) × AllFrom k xs

  abbrev pub IsAscending : List A → Type 0
  IsAscending [] = Unit
  IsAscending (x ∷ xs) = AllFrom (key x) xs × IsAscending xs

  abbrev by_key : A → A → Sign
  by_key left right = compare_number (key left) (key right)

  pub compare_number-IsConsistent : IsConsistent by_key
  unfolding compare_number
  compare_number-IsConsistent = record {
    flips = λ a b. ground arith;
    trans = λ a b c h k e. ground (arith, h, k, e);
  }

  compare_number-le : (m n : ℕ) → compare_number m n ≢ positive → m ≤ n
  unfolding compare_number
  compare_number-le m n h = ground (arith, h)

  NoneAbove-AllFrom : (x : A) (xs : List A) → NoneAbove by_key x xs → AllFrom (key x) xs
  NoneAbove-AllFrom x [] h = tt
  NoneAbove-AllFrom x (y ∷ ys) h =
      (compare_number-le (key x) (key y) h.0, NoneAbove-AllFrom x ys h.1)

  pub IsSortedBy-IsAscending : (xs : List A) → IsSortedBy by_key xs → IsAscending xs
  IsSortedBy-IsAscending [] h = tt
  IsSortedBy-IsAscending (x ∷ xs) h = (NoneAbove-AllFrom x xs h.0, IsSortedBy-IsAscending xs h.1)
