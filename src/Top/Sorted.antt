-- ===== src/Top/Sorted.antt =====
-- The specification: insertion sort in descending order, of which the array keeps the first cells.
use rookietop.Common.{
  ℕ, zero, suc, ◌≡◌, refl, Bool, true, List, [], ◌∷◌, if◌then◌else◌, take, length, ◌⊎◌, inl, inr,
  arith, ◌+◌, Bool-cases, ap, ◌≤◌, ◌++◌,
}
use mathlib.Core.List.{Perm, perm_middle}
use mathlib.Core.List.Perm

module _ {A : Type 0} where
  pub take-nil : (n : ℕ) → take {A = A} n [] ≡ []
  take-nil zero = refl
  take-nil (suc n) = refl

  pub take-take : (m n : ℕ) (xs : List A) → m ≤ n → take m (take n xs) ≡ take m xs
  take-take zero n xs h = refl
  take-take (suc m) zero xs h = absurd (omega arith)
  take-take (suc m) (suc n) [] h = refl
  take-take (suc m) (suc n) (x ∷ xs) h = ap (◌∷◌ x) (take-take m n xs (omega arith))

  pub take-take_ge : (m n : ℕ) (xs : List A) → n ≤ m → take m (take n xs) ≡ take n xs
  take-take_ge zero zero xs h = refl
  take-take_ge zero (suc n) xs h = absurd (omega arith)
  take-take_ge (suc m) zero xs h = refl
  take-take_ge (suc m) (suc n) [] h = refl
  take-take_ge (suc m) (suc n) (x ∷ xs) h = ap (◌∷◌ x) (take-take_ge m n xs (omega arith))

  pub take-append_take :
      (n : ℕ) (xs ys : List A) → n ≤ length xs → take n (take n xs ++ ys) ≡ take n xs
  take-append_take zero xs ys h = refl
  take-append_take (suc n) [] ys h = absurd (omega arith)
  take-append_take (suc n) (x ∷ xs) ys h = ap (◌∷◌ x) (take-append_take n xs ys (omega arith))

module _ {A : Type 0} (ge : A → A → Bool) where
  -- Behind all that are at least as good, up to the first that is not.
  unfoldable pub insert : A → List A → List A
  insert x [] = x ∷ []
  insert x (y ∷ ys) = if ge y x then y ∷ insert x ys else x ∷ y ∷ ys

  unfoldable pub insert_each : List A → List A → List A
  insert_each sorted [] = sorted
  insert_each sorted (x ∷ xs) = insert_each (insert x sorted) xs

  abbrev pub AllBelow : A → List A → Type 0
  AllBelow x [] = Unit
  AllBelow x (y ∷ ys) = (ge x y ≡ true) × AllBelow x ys

  abbrev pub IsDescending : List A → Type 0
  IsDescending [] = Unit
  IsDescending (x ∷ xs) = AllBelow x xs × IsDescending xs

  -- Every item can be compared with itself.
  abbrev pub AllComparable : List A → Type 0
  AllComparable [] = Unit
  AllComparable (x ∷ xs) = (ge x x ≡ true) × AllComparable xs

  pub all_comparable : ((a : A) → ge a a ≡ true) → (xs : List A) → AllComparable xs
  all_comparable h [] = tt
  all_comparable h (x ∷ xs) = (h x, all_comparable h xs)

  AllComparable-insert :
      (x : A) (xs : List A) → ge x x ≡ true → AllComparable xs → AllComparable (insert x xs)
  unfolding insert
  AllComparable-insert x [] h k = (h, tt)
  AllComparable-insert x (y ∷ ys) h k = elim (Bool-cases (ge y x)) [
    | inl e ↦ rw e (k.0, AllComparable-insert x ys h k.1)
    | inr e ↦ rw e (h, k)
  ]

  pub length-insert : (x : A) (xs : List A) → length (insert x xs) ≡ suc (length xs)
  unfolding insert
  length-insert x [] = refl
  length-insert x (y ∷ ys) = ground (arith, length-insert x ys)

  pub length-insert_each :
      (sorted xs : List A) → length (insert_each sorted xs) ≡ length sorted + length xs
  unfolding insert_each
  length-insert_each sorted [] = ground arith
  length-insert_each sorted (x ∷ xs) =
      ground (arith, length-insert x sorted, length-insert_each (insert x sorted) xs)

  insert-Perm : (x : A) (xs : List A) → Perm (insert x xs) (x ∷ xs)
  unfolding insert
  insert-Perm x [] = Perm.refl (x ∷ [])
  insert-Perm x (y ∷ ys) = elim (Bool-cases (ge y x)) [
    | inl h ↦ rw h (Perm.trans (Perm.cons y (insert-Perm x ys)) (Perm.swap x y ys))
    | inr h ↦ rw h (Perm.refl (x ∷ y ∷ ys))
  ]

  take-cons_take : (n : ℕ) (y : A) (ys : List A) → take n (y ∷ take n ys) ≡ take n (y ∷ ys)
  take-cons_take zero y ys = refl
  take-cons_take (suc n) y ys = ap (◌∷◌ y) (take-take n (suc n) ys (omega arith))

  -- Cutting the list before the insertion changes nothing of the first cells.
  pub take-insert-take :
      (n : ℕ) (x : A) (xs : List A) → take n (insert x (take n xs)) ≡ take n (insert x xs)
  unfolding insert
  take-insert-take zero x xs = refl
  take-insert-take (suc n) x [] = refl
  take-insert-take (suc n) x (y ∷ ys) =
      ground (arith, take-insert-take n x ys, take-cons_take n y ys)

  pub insert_each-Perm : (sorted xs : List A) → Perm (insert_each sorted xs) (xs ++ sorted)
  unfolding insert_each
  insert_each-Perm sorted [] = Perm.refl sorted
  insert_each-Perm sorted (x ∷ xs) =
      Perm.trans (insert_each-Perm (insert x sorted) xs)
        (Perm.trans (Perm.append (Perm.refl xs) (insert-Perm x sorted)) (perm_middle xs sorted))

module _ {A : Type 0} (ge : A → A → Bool)
    (total : (a b : A) → ge a a ≡ true → ge b b ≡ true → (ge a b ≡ true) ⊎ (ge b a ≡ true))
    (trans : (a b c : A) → ge a b ≡ true → ge b c ≡ true → ge a c ≡ true) where
  AllBelow-trans : (x y : A) (ys : List A) → ge x y ≡ true → AllBelow ge y ys → AllBelow ge x ys
  AllBelow-trans x y [] h b = tt
  AllBelow-trans x y (z ∷ zs) h b = (trans x y z h b.0, AllBelow-trans x y zs h b.1)

  AllBelow-insert :
      (x y : A) (ys : List A) → ge y x ≡ true → AllBelow ge y ys → AllBelow ge y (insert ge x ys)
  unfolding insert
  AllBelow-insert x y [] h b = (h, tt)
  AllBelow-insert x y (z ∷ zs) h b = ground (arith, AllBelow-insert x y zs h)

  insert-IsDescending :
      (x : A) (xs : List A)
      → ge x x ≡ true
      → AllComparable ge xs
      → IsDescending ge xs
      → IsDescending ge (insert ge x xs)
  unfolding insert
  insert-IsDescending x [] c cs h = (tt, tt)
  insert-IsDescending x (y ∷ ys) c cs h = elim (Bool-cases (ge y x)) [
    | inl better ↦
        rw better (AllBelow-insert x y ys better h.0, insert-IsDescending x ys c cs.1 h.1)
    | inr worse ↦ rw worse (
        let below : ge x y ≡ true = ground (arith, total x y c cs.0) in
        ((below, AllBelow-trans x y ys below h.0), h))
  ]

  pub insert_each-IsDescending :
      (sorted xs : List A)
      → AllComparable ge sorted
      → AllComparable ge xs
      → IsDescending ge sorted
      → IsDescending ge (insert_each ge sorted xs)
  unfolding insert_each
  insert_each-IsDescending sorted [] c cs h = h
  insert_each-IsDescending sorted (x ∷ xs) c cs h =
      insert_each-IsDescending (insert ge x sorted) xs (AllComparable-insert ge x sorted cs.0 c)
        cs.1 (insert-IsDescending x sorted cs.0 c h)
