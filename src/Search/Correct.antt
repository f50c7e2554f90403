-- ===== src/Search/Correct.antt =====
-- The binary search ends, reads within the array, and on an array sorted by pid finds exactly the
-- pids that are there.
use rookietop.Common.{
  ℕ, zero, suc, ◌+◌, ◌-◌, ◌/◌, ◌≤◌, ◌<◌, ◌≡◌, ◌≢◌, refl, List, [], ◌∷◌, some, ltb, ◌==◌, length,
  get_elem?, arith, inl, inr, Bool-cases, ==_iff,
}
use native.Mathlib.Decide.{dec_lt}
use rookietop.Libc.Sort.{AllFrom, IsAscending}
use rookietop.Search.{Outcome, hit, miss, fault, search_loop, search}

module _ {A : Type 0} (key : A → ℕ) where
  -- No item has the pid.
  abbrev pub Absent : ℕ → List A → Type 0
  Absent pid [] = Unit
  Absent pid (x ∷ xs) = (key x ≢ pid) × Absent pid xs

  -- The key in a cell.
  key_at : List A → ℕ → ℕ
  key_at [] i = 0
  key_at (x ∷ xs) zero = key x
  key_at (x ∷ xs) (suc i) = key_at xs i

  get_elem?-key_at :
      (items : List A) (i : ℕ)
      → i < length items
      → (x : A) × (get_elem? items i ≡ some x) × (key x ≡ key_at items i)
  unfolding key_at
  get_elem?-key_at [] i h = absurd (omega arith)
  get_elem?-key_at (x ∷ xs) zero h = (x, refl, refl)
  get_elem?-key_at (x ∷ xs) (suc i) h = get_elem?-key_at xs i (omega arith)

  AllFrom-key_at :
      (k : ℕ) (items : List A) (i : ℕ) → AllFrom key k items → i < length items → k ≤ key_at items i
  unfolding key_at
  AllFrom-key_at k [] i h b = absurd (omega arith)
  AllFrom-key_at k (x ∷ xs) zero h b = h.0
  AllFrom-key_at k (x ∷ xs) (suc i) h b = AllFrom-key_at k xs i h.1 (omega arith)

  key_at_mono :
      (items : List A) (i j : ℕ)
      → IsAscending key items
      → i ≤ j
      → j < length items
      → key_at items i ≤ key_at items j
  unfolding key_at
  key_at_mono [] i j s h b = absurd (omega arith)
  key_at_mono (x ∷ xs) zero zero s h b = omega arith
  key_at_mono (x ∷ xs) zero (suc j) s h b = AllFrom-key_at (key x) xs j s.0 (omega arith)
  key_at_mono (x ∷ xs) (suc i) zero s h b = absurd (omega arith)
  key_at_mono (x ∷ xs) (suc i) (suc j) s h b = key_at_mono xs i j s.1 (omega arith) (omega arith)

  key_at-Absent :
      (pid : ℕ) (items : List A)
      → ((i : ℕ) → i < length items → key_at items i ≢ pid)
      → Absent pid items
  unfolding key_at
  key_at-Absent pid [] h = tt
  key_at-Absent pid (x ∷ xs) h =
      (h 0 (omega arith), key_at-Absent pid xs (λ i b. h (suc i) (omega arith)))

  pub Absent-get_elem? :
      (pid : ℕ) (items : List A) (i : ℕ) {x : A}
      → Absent pid items
      → get_elem? items i ≡ some x
      → key x ≢ pid
  Absent-get_elem? pid [] i h e = cc
  Absent-get_elem? pid (y ∷ ys) zero {x = x} h e = λ same. h.0 (cc)
  Absent-get_elem? pid (y ∷ ys) (suc i) h e = Absent-get_elem? pid ys i h.1 e

  -- What the outcome of a search says of the items.
  abbrev pub Decides : List A → ℕ → Outcome A → Type 0
  Decides items pid (hit x) = (key x ≡ pid) × (i : ℕ) × (get_elem? items i ≡ some x)
  Decides items pid miss = Absent pid items
  Decides items pid fault = ⊥

module _ {A : Type 0} (key : A → ℕ) (items : List A) (pid : ℕ)
    (sorted : IsAscending key items) where
  -- The keys outside of the cells from low up to high are not the pid.
  record Outside (low high : ℕ) : Type 0 where
    inside : high ≤ length items
    below : (i : ℕ) → i < low → key_at key items i ≢ pid
    above : (i : ℕ) → high ≤ i → i < length items → key_at key items i ≢ pid

  upper-Outside :
      (low high mid : ℕ)
      → Outside low high
      → mid < high
      → key_at key items mid < pid
      → Outside (suc mid) high
  upper-Outside low high mid o b less = record {
    inside = o.inside;
    below = λ i h.
        let m = key_at_mono key items i mid sorted (omega arith) (omega (arith, o.inside)) in
        omega arith;
    above = o.above;
  }

  lower-Outside :
      (low high mid : ℕ)
      → Outside low high
      → mid < high
      → pid < key_at key items mid
      → Outside low mid
  lower-Outside low high mid o b more = record {
    inside = omega (arith, o.inside);
    below = o.below;
    above = λ i h k. let m = key_at_mono key items mid i sorted h k in omega arith;
  }

  Outside-Absent : (low high : ℕ) → Outside low high → high ≤ low → Absent key pid items
  Outside-Absent low high o e =
      key_at-Absent key pid items
        (λ i h. elim (dec_lt i low) [ yes p ↦ o.below i p | no p ↦ o.above i (omega arith) h ])

  search_loop-Decides :
      (fuel low high : ℕ)
      → high - low < fuel
      → Outside low high
      → Decides key items pid (search_loop key items pid fuel low high)
  unfolding search_loop
  search_loop-Decides zero low high f o = absurd (omega arith)
  search_loop-Decides (suc fuel) low high f o =
      let mid = low + (high - low) / 2 in
      elim (Bool-cases (ltb low high)) [
        | inr done ↦ rw done (Outside-Absent low high o (ground arith))
        | inl more ↦
            let (x, cell, same) = get_elem?-key_at key items mid (ground (arith, o.inside)) in
            let inside : mid < high = ground arith in
            elim (Bool-cases (key x == pid)) [
              | inl eq ↦ rw (more, cell, eq) ((==_iff (key x) pid).0 eq, mid, cell)
              | inr ne ↦ elim (Bool-cases (ltb (key x) pid)) [
                | inl less ↦
                    rw (more, cell, ne, less)
                      (search_loop-Decides fuel (suc mid) high (ground arith)
                        (upper-Outside low high mid o inside (ground arith)))
                | inr more_than ↦
                    rw (more, cell, ne, more_than)
                      (search_loop-Decides fuel low mid (ground arith)
                        (lower-Outside low high mid o inside (ground arith)))
              ]
            ]
      ]

  -- On an array sorted by pid the search ends within the array: it returns an item of the array
  -- with the pid, or NULL when no item has it.
  pub search-Decides : Decides key items pid (search key items pid)
  unfolding search
  search-Decides = search_loop-Decides (suc (length items)) 0 (length items) (omega arith) (record {
    inside = omega arith;
    below = λ i h. absurd (omega arith);
    above = λ i h k. absurd (omega arith);
  })
