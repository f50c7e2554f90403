-- ===== src/Top/Insert.antt =====
-- The array of insert_top holds the first cells of the sorted list of all candidates.
use rookietop.Common.{
  ℕ, zero, suc, ◌+◌, ◌-◌, ◌≤◌, ◌≡◌, refl, Bool, true, false, List, [], ◌∷◌, ◌++◌, if◌then◌else◌,
  take, drop, length, ◌⊎◌, inl, inr, arith, ltb, Bool-cases, min, ap, ◌∙◌, sym, length-append,
  length-take, length-drop,
}
use mathlib.Core.List.{Perm, append-nil}
use rookietop.Top.{Top, memmove, position, insert_top, insert_all}
use rookietop.Top.Sorted.{
  insert, insert_each, IsDescending, AllComparable, length-insert, take-insert-take, take-nil,
  take-take, take-take_ge, take-append_take, insert_each-Perm, insert_each-IsDescending,
}

module _ {A : Type 0} where
  memmove-cons :
      (d k : ℕ) (s : ℕ) (y : A) (ys : List A)
      → memmove (suc d) (suc s) k (y ∷ ys) ≡ y ∷ memmove d s k ys
  unfolding memmove
  memmove-cons d k s y ys =
      let e : suc d + k ≡ suc (d + k) = omega arith in
      ap (λ m. y ∷ (take d ys ++ (take k (drop s ys) ++ drop m (y ∷ ys)))) e

  memmove-front :
      (k : ℕ) (y : A) (ys : List A)
      → memmove 1 0 k (y ∷ ys) ≡ y ∷ (take k (y ∷ ys) ++ drop (suc k) (y ∷ ys))
  unfolding memmove
  memmove-front k y ys =
      let e : 1 + k ≡ suc k = omega arith in ap (λ m. y ∷ (take k (y ∷ ys) ++ drop m (y ∷ ys))) e

module _ {A : Type 0} (ge : A → A → Bool) where
  abbrev cells : List A → ℕ → Top A
  cells out count = record { out = out; count = count }

  -- Past a cell that is at least as good the rest of the array is treated like an array.
  insert_top-cons :
      (cap n : ℕ) (y x : A) (ys : List A)
      → ge y x ≡ true
      → insert_top ge (suc cap) (cells (y ∷ ys) (suc n)) x
        ≡ cells
            (y ∷ (insert_top ge cap (cells ys n) x).out)
            (suc (insert_top ge cap (cells ys n) x).count)
  unfolding insert_top position
  insert_top-cons cap n y x ys h =
      let p = position ge x n ys in
      let k = (if ltb n cap then suc n else n) - suc p in
      ground (arith, memmove-cons (suc p) k p y ys)

  -- How many of the old cells stay behind a new first cell.
  abbrev stay : ℕ → ℕ → ℕ
  stay n cap = if ltb n cap then suc n else n

  insert_top-front :
      (cap n : ℕ) (y x : A) (ys : List A)
      → ge y x ≡ false
      → n ≤ cap
      → insert_top ge (suc cap) (cells (y ∷ ys) (suc n)) x
        ≡ cells
            (x ∷ (take (stay n cap) (y ∷ ys) ++ drop (suc (stay n cap)) (y ∷ ys)))
            (suc (stay n cap))
  unfolding insert_top position
  insert_top-front cap n y x ys h k =
      ground
        (arith, memmove-front ((if ltb (suc n) (suc cap) then suc (suc n) else suc n) - 1) y ys)

  -- The cells in use.
  abbrev pub kept : Top A → List A
  kept t = take t.count t.out

  insert_top-kept :
      (cap : ℕ) (out : List A) (count : ℕ) (x : A)
      → length out ≡ cap
      → count ≤ cap
      → kept (insert_top ge cap (cells out count) x) ≡ take cap (insert ge x (take count out))
  unfolding insert
  insert_top-kept zero out zero x h k = unfold insert_top position in refl
  insert_top-kept zero out (suc n) x h k = absurd (omega arith)
  insert_top-kept (suc cap) [] n x h k = absurd (omega arith)
  insert_top-kept (suc cap) (y ∷ ys) zero x h k =
      unfold insert_top position in ground (arith, take-nil {A = A} cap)
  insert_top-kept (suc cap) (y ∷ ys) (suc n) x h k = elim (Bool-cases (ge y x)) [
    | inl better ↦ rw better (
        ground (
          arith,
          insert_top-cons cap n y x ys better,
          insert_top-kept cap ys n x (omega arith) (omega arith),
        ))
    | inr worse ↦ rw worse (
        ground (
          arith,
          insert_top-front cap n y x ys worse (omega arith),
          take-append_take (stay n cap) (y ∷ ys) (drop (suc (stay n cap)) (y ∷ ys)),
          take-take_ge cap (suc n) (y ∷ ys),
          take-take cap (suc n) (y ∷ ys),
        ))
  ]

  insert_top-count :
      (cap : ℕ) (out : List A) (count : ℕ) (x : A)
      → length out ≡ cap
      → count ≤ cap
      → ((insert_top ge cap (cells out count) x).count ≡ min cap (suc count))
        × (length (insert_top ge cap (cells out count) x).out ≡ cap)
  insert_top-count zero out zero x h k = unfold insert_top position in (refl, h)
  insert_top-count zero out (suc n) x h k = absurd (omega arith)
  insert_top-count (suc cap) [] n x h k = absurd (omega arith)
  insert_top-count (suc cap) (y ∷ ys) zero x h k = unfold insert_top position in ground arith
  insert_top-count (suc cap) (y ∷ ys) (suc n) x h k = elim (Bool-cases (ge y x)) [
    | inl better ↦ ground (
      arith,
      insert_top-cons cap n y x ys better,
      insert_top-count cap ys n x (omega arith) (omega arith),
    )
    | inr worse ↦ ground (
      arith,
      insert_top-front cap n y x ys worse (omega arith),
      length-append (take (stay n cap) (y ∷ ys)) (drop (suc (stay n cap)) (y ∷ ys)),
      length-take (stay n cap) (y ∷ ys),
      length-drop (suc (stay n cap)) (y ∷ ys),
    )
  ]

  insert_all-kept :
      (cap : ℕ) (xs : List A) (t : Top A) (sorted : List A)
      → length t.out ≡ cap
      → t.count ≤ cap
      → kept t ≡ take cap sorted
      → t.count ≡ min cap (length sorted)
      → (kept (insert_all ge cap t xs) ≡ take cap (insert_each ge sorted xs))
        × ((insert_all ge cap t xs).count ≡ min cap (length sorted + length xs))
  unfolding insert_all insert_each
  insert_all-kept cap [] t sorted l c k n = (k, omega arith)
  insert_all-kept cap (x ∷ xs) t sorted l c k n =
      let first = insert_top-kept cap t.out t.count x l c in
      let (count, len) = insert_top-count cap t.out t.count x l c in
      let (k', n') =
        insert_all-kept cap xs (insert_top ge cap t x) (insert ge x sorted) len (omega arith)
          (first ∙ ap (λ l. take cap (insert ge x l)) k ∙ take-insert-take ge cap x sorted)
          (omega (arith, length-insert ge x sorted)) in
      (k', omega (arith, length-insert ge x sorted))

module _ {A : Type 0} (ge : A → A → Bool) where
  -- What an array that starts empty holds when all candidates have been offered.
  pub record Best (cap : ℕ) (xs : List A) (t : Top A) : Type 0 where
    pub ranked : List A
    pub same : Perm ranked xs
    pub descending : IsDescending ge ranked
    pub holds : kept ge t ≡ take cap ranked
    pub counts : t.count ≡ min cap (length xs)

module _ {A : Type 0} (ge : A → A → Bool)
    (total : (a b : A) → ge a a ≡ true → ge b b ≡ true → (ge a b ≡ true) ⊎ (ge b a ≡ true))
    (trans : (a b c : A) → ge a b ≡ true → ge b c ≡ true → ge a c ≡ true) where
  -- Offering candidates that can be compared to an empty array of cap cells leaves in it the first
  -- cap of all of them in descending order, and counts these.
  pub insert_all-Best :
      (cap : ℕ) (out xs : List A)
      → length out ≡ cap
      → AllComparable ge xs
      → Best ge cap xs (insert_all ge cap (record { out = out; count = 0 }) xs)
  insert_all-Best cap out xs h c =
      let (k, n) =
        insert_all-kept ge cap xs (record { out = out; count = 0 }) [] h (omega arith)
          (sym (take-nil cap)) (omega arith) in
      record {
        ranked = insert_each ge [] xs;
        same = rw append-nil at (insert_each-Perm ge [] xs);
        descending = insert_each-IsDescending ge total trans [] xs tt c tt;
        holds = k;
        counts = omega arith;
      }
