-- ===== src/Query/Filter.antt =====
-- The in-place filter keeps exactly the matching rows, in their order.
use rookietop.Common.{
  ℕ, suc, ◌+◌, ◌≤◌, Bool, true, List, [], ◌∷◌, ◌++◌, length, set, take, drop, ◌≡◌, refl, arith,
  if◌then◌else◌, ap, ◌∙◌, inl, inr, Bool-cases, sym, drop-set, take-set, drop-cons, take-length,
}
use mathlib.Core.List.{append_assoc, append-nil}
use rookietop.Libc.Chars.{Bytes}
use rookietop.Libc.Float.{Float}
use rookietop.ProcessList.{ProcessRow}
use rookietop.Query.{
  Compacted, compact_row, compact, process_query_matches, row_matches, process_query_filter,
}

module _ {A : Type 0} where
  -- The rows that match.
  pub matching : (A → Bool) → List A → List A
  matching matches [] = []
  matching matches (row ∷ rest) =
      if matches row then row ∷ matching matches rest else matching matches rest

module _ {A : Type 0} (matches : A → Bool) where
  abbrev Kept : ℕ → List A → Compacted A → Compacted A → Type 0
  Kept read rest c c' =
      (take c'.write c'.rows ≡ take c.write c.rows ++ matching matches rest)
      × (c'.write ≤ read + length rest)

  compact-suc :
      (left read : ℕ) (c : Compacted A)
      → compact matches (suc left) read c
        ≡ compact matches left (suc read) (compact_row matches read c)
  unfolding compact
  compact-suc left read c = refl

  compact-matching :
      (rest : List A) (read : ℕ) (c : Compacted A)
      → drop read c.rows ≡ rest
      → c.write ≤ read
      → Kept read rest c (compact matches (length rest) read c)
  unfolding matching
  compact-matching [] read c h w =
      unfold compact in (sym (append-nil (take c.write c.rows)), omega arith)
  compact-matching (row ∷ rest) read c h w =
      let (cell, next, inside) = drop-cons read c.rows rest row h in
      elim (Bool-cases (matches row)) [
        | inr no_match ↦
            let (kept, bound) = compact-matching rest (suc read) c next (omega arith) in
            let stays : compact_row matches read c ≡ c = unfold compact_row in ground arith in
            rw (compact-suc (length rest) read c, stays, no_match) (kept, omega arith)
        | inl match ↦
            let c1 : Compacted A = record { rows = set c.rows c.write row; write = suc c.write } in
            let moved =
              compact-matching rest (suc read) c1
                (drop-set c.write (suc read) c.rows row (omega arith) ∙ next) (omega arith) in
            let moves : compact_row matches read c ≡ c1 = unfold compact_row in ground arith in
            let (kept, bound) = moved in
            rw (compact-suc (length rest) read c, moves, match)
              (
                kept
                    ∙ ap (λ l. l ++ matching matches rest)
                        (take-set c.write c.rows row (omega arith))
                    ∙ append_assoc (take c.write c.rows) (row ∷ []) (matching matches rest),
                omega arith,
              )
      ]

module _ {A : Type 0} where
  matching-all :
      (matches : A → Bool) (rows : List A)
      → ((row : A) → matches row ≡ true)
      → matching matches rows ≡ rows
  unfolding matching
  matching-all matches [] h = refl
  matching-all matches (row ∷ rest) h = rw (h row) (ap (◌∷◌ row) (matching-all matches rest h))

module _ (f : Float) where
  row_matches-nil : (row : ProcessRow f) → row_matches f [] row ≡ true
  unfolding row_matches process_query_matches
  row_matches-nil row = refl

  process_query_filter-cons :
      (rows : List (ProcessRow f)) (count q : ℕ) (qs : Bytes)
      → process_query_filter f rows count (q ∷ qs)
        ≡ compact (row_matches f (q ∷ qs)) count 0 (record { rows = rows; write = 0 })
  unfolding process_query_filter
  process_query_filter-cons rows count q qs = ground arith

  -- After process_query_filter on a whole array its first cells, as many as it says, are exactly
  -- the rows that match the query, in their order; for the empty query these are all rows.
  pub process_query_filter-matching :
      (rows : List (ProcessRow f)) (query : Bytes)
      → let c = process_query_filter f rows (length rows) query in
        (take c.write c.rows ≡ matching (row_matches f query) rows) × (c.write ≤ length rows)
  process_query_filter-matching rows [] =
      unfold process_query_filter in
      (
        take-length (length rows) rows (omega arith)
            ∙ sym (matching-all (row_matches f []) rows row_matches-nil),
        omega arith,
      )
  process_query_filter-matching rows (q ∷ qs) =
      let (kept, bound) =
        compact-matching (row_matches f (q ∷ qs)) rows 0 (record { rows = rows; write = 0 }) refl
          (omega arith) in
      rw (process_query_filter-cons rows (length rows) q qs) (kept, omega arith)
