-- ===== src/Search.antt =====
-- The binary search for a pid, which find_previous in src/process_cpu.c and find_cpu_info in
-- src/main.c write alike.
use rookietop.Common.{
  ℕ, zero, suc, ◌+◌, ◌-◌, ◌/◌, Bool, true, false, List, Option, none, some, ltb, ◌==◌,
  if◌then◌else◌, length, get_elem?,
}
pub mod Correct

-- An item, NULL, or a read past the array or a loop that does not end.
pub data Outcome (A : Type 0) : Type 0 where
  hit : A → Outcome A
  miss fault : Outcome A

module _ {A : Type 0} (key : A → ℕ) (items : List A) (pid : ℕ) where
  -- `while (low < high)`, by fuel
  unfoldable pub search_loop : ℕ → ℕ → ℕ → Outcome A
  search_loop zero low high = fault
  search_loop (suc fuel) low high =
      let mid = low + (high - low) / 2 in
      let upper = search_loop fuel (suc mid) high in
      let lower = search_loop fuel low mid in
      if ltb low high
      then elim (get_elem? items mid) [
        | none ↦ fault
        | some x ↦ if key x == pid then hit x else if ltb (key x) pid then upper else lower
      ]
      else miss

  -- A round takes away at least one item, so one more round than items is enough.
  unfoldable pub search : Outcome A
  unfolding search_loop
  search = search_loop (suc (length items)) 0 (length items)
