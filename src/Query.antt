-- ===== src/Query.antt =====
-- src/process_query.c: the search for processes by name or pid.
use rookietop.Common.{
  ℕ, zero, suc, Bool, true, false, ◌&&◌, ◌||◌, List, [], ◌∷◌, Option, none, some, ltb, ◌==◌,
  if◌then◌else◌, length, get_elem?, set,
}
use rookietop.Libc.Chars.{Bytes, to_lower, strstr}
use rookietop.Libc.Float.{Float}
use rookietop.ProcessList.{ProcessRow}
use rookietop.Libc.Decimal.{decimal}
pub mod Contains
pub mod Filter

-- The inner loop from one start of the text, and its test at the end of the query.
unfoldable pub matches_here : Bytes → Bytes → Bool
matches_here left [] = true
matches_here [] (r ∷ rs) = false
matches_here (l ∷ ls) (r ∷ rs) = to_lower l == to_lower r && matches_here ls rs

-- The outer loop.
unfoldable pub matches_from : Bytes → Bytes → Bool
unfolding matches_here
matches_from [] query = false
matches_from (c ∷ cs) query = matches_here (c ∷ cs) query || matches_from cs query

unfoldable pub contains_case_insensitive : Bytes → Bytes → Bool
unfolding matches_from
contains_case_insensitive text query = length query == 0 || matches_from text query

-- The row is given by its name and its pid.
unfoldable pub process_query_matches : Bytes → ℕ → Bytes → Bool
unfolding contains_case_insensitive
process_query_matches name pid query =
    let digits = decimal pid in
    if length query == 0 || contains_case_insensitive name query
    then true
    else ltb 0 (length digits) && ltb (length digits) 32 && strstr digits query

-- The array of rows, and the index `write`.
pub record Compacted (A : Type 0) : Type 0 where
  pub rows : List A
  pub write : ℕ

module _ {A : Type 0} (matches : A → Bool) where
  -- `if (matches(&rows[read])) rows[write++] = rows[read];`
  unfoldable pub compact_row : ℕ → Compacted A → Compacted A
  compact_row read c = elim (get_elem? c.rows read) [
    | none ↦ c
    | some row ↦
        if matches row then record { rows = set c.rows c.write row; write = suc c.write } else c
  ]

  -- `left` rounds from the index `read` on
  unfoldable pub compact : ℕ → ℕ → Compacted A → Compacted A
  unfolding compact_row
  compact zero read c = c
  compact (suc left) read c = compact left (suc read) (compact_row read c)

module _ (f : Float) where
  unfoldable pub row_matches : Bytes → ProcessRow f → Bool
  row_matches query row = process_query_matches row.name row.pid query

  -- `count` rows of the array, which is never NULL when it has rows
  unfoldable pub process_query_filter : List (ProcessRow f) → ℕ → Bytes → Compacted (ProcessRow f)
  process_query_filter rows count query =
      let start : Compacted (ProcessRow f) = record { rows = rows; write = 0 } in
      if length query == 0
      then record { rows = rows; write = count }
      else compact (row_matches query) count 0 start
