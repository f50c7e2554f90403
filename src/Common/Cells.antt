-- ===== src/Common/Cells.antt =====
-- The cells of an array that a loop writes, as lists.
use Prim.Native.Nat.{ℕ, zero, suc, ◌+◌, ◌≤◌, ◌<◌}
use mathlib.Core.Path.{◌≡◌, refl, ap, sym}
use mathlib.Core.Option.{some}
use mathlib.Core.List.{List, [], ◌∷◌, ◌++◌}
use native.Mathlib.Omega.{arith}
use rookietop.Common.Lists.{length, take, drop, set, get_elem?}

module _ {A : Type 0} where
  -- The array from the read index on is still as it was.
  pub drop-set :
      (write read : ℕ) (rows : List A) (row : A)
      → write < read
      → drop read (set rows write row) ≡ drop read rows
  drop-set write zero rows row h = absurd (omega arith)
  drop-set write (suc read) [] row h = refl
  drop-set zero (suc read) (r ∷ rs) row h = refl
  drop-set (suc write) (suc read) (r ∷ rs) row h = drop-set write read rs row (omega arith)

  pub take-set :
      (write : ℕ) (rows : List A) (row : A)
      → write < length rows
      → take (suc write) (set rows write row) ≡ take write rows ++ row ∷ []
  take-set write [] row h = absurd (omega arith)
  take-set zero (r ∷ rs) row h = refl
  take-set (suc write) (r ∷ rs) row h = ap (◌∷◌ r) (take-set write rs row (omega arith))

  pub drop-cons :
      (read : ℕ) (rows rest : List A) (row : A)
      → drop read rows ≡ row ∷ rest
      → (get_elem? rows read ≡ some row) × (drop (suc read) rows ≡ rest) × (read < length rows)
  drop-cons zero [] rest row h = cc
  drop-cons zero (r ∷ rs) rest row h = ground arith
  drop-cons (suc read) [] rest row h = cc
  drop-cons (suc read) (r ∷ rs) rest row h =
      let (cell, next, inside) = drop-cons read rs rest row h in (cell, next, omega arith)

  pub take-length : (n : ℕ) (xs : List A) → length xs ≤ n → take n xs ≡ xs
  take-length zero [] h = refl
  take-length zero (x ∷ xs) h = absurd (omega arith)
  take-length (suc n) [] h = refl
  take-length (suc n) (x ∷ xs) h = ap (◌∷◌ x) (take-length n xs (omega arith))

  pub drop-append : (n : ℕ) (xs ys : List A) → n ≤ length xs → drop n (xs ++ ys) ≡ drop n xs ++ ys
  drop-append zero xs ys h = refl
  drop-append (suc n) [] ys h = absurd (omega arith)
  drop-append (suc n) (x ∷ xs) ys h = drop-append n xs ys (omega arith)

  pub drop-length : (n : ℕ) (xs : List A) → length xs ≤ n → drop n xs ≡ []
  drop-length zero [] h = refl
  drop-length zero (x ∷ xs) h = absurd (omega arith)
  drop-length (suc n) [] h = refl
  drop-length (suc n) (x ∷ xs) h = drop-length n xs (omega arith)

  pub take-append : (n : ℕ) (xs ys : List A) → n ≡ length xs → take n (take n xs ++ ys) ≡ xs
  take-append zero [] ys h = refl
  take-append zero (x ∷ xs) ys h = absurd (omega arith)
  take-append (suc n) [] ys h = absurd (omega arith)
  take-append (suc n) (x ∷ xs) ys h = ap (◌∷◌ x) (take-append n xs ys (omega arith))

  drop-nil : (k : ℕ) → drop {A = A} k [] ≡ []
  drop-nil zero = refl
  drop-nil (suc k) = refl

  pub drop-drop : (m n p : ℕ) (xs : List A) → p ≡ m + n → drop m (drop n xs) ≡ drop p xs
  drop-drop m zero p xs h = let same : p ≡ m = omega arith in ap (λ k. drop k xs) (sym same)
  drop-drop m (suc n) zero xs h = absurd (omega arith)
  drop-drop m (suc n) (suc p) [] h = drop-nil m
  drop-drop m (suc n) (suc p) (x ∷ xs) h = drop-drop m n p xs (omega arith)
