-- ===== src/App/Rows.antt =====
-- The rows that the process screen shows: their order, and the one that is selected.
use rookietop.Common.{
  ℕ, suc, ◌-◌, ◌&&◌, List, [], ◌∷◌, Option, none, some, ltb, leb, ◌==◌, if◌then◌else◌, length,
  get_elem?, take,
}
use rookietop.Libc.Chars.{Bytes}
use rookietop.Libc.Float.{Float}
use rookietop.Libc.Sort.{Sign, negative, equal, positive, compare_number}
use rookietop.ProcessList.{ProcessRow}
use rookietop.Query.{process_query_filter}
use rookietop.App.State.{AppState, ProcessSort, sort_memory, sort_cpu, sort_pid, sort_name}

-- strcmp
unfoldable pub strcmp : Bytes → Bytes → Sign
strcmp [] [] = equal
strcmp [] (r ∷ rs) = negative
strcmp (l ∷ ls) [] = positive
strcmp (l ∷ ls) (r ∷ rs) =
    let rest = strcmp ls rs in if ltb l r then negative else if ltb r l then positive else rest

module _ (f : Float) where
  open f use {lt}

  unfoldable pub compare_pid : ProcessRow f → ProcessRow f → Sign
  compare_pid left right = compare_number left.pid right.pid

  unfoldable pub compare_memory : ProcessRow f → ProcessRow f → Sign
  compare_memory left right =
      if ltb left.rss_kib right.rss_kib
      then positive
      else if ltb right.rss_kib left.rss_kib
      then negative
      else compare_number left.pid right.pid

  unfoldable pub compare_cpu : ProcessRow f → ProcessRow f → Sign
  compare_cpu left right =
      if lt left.cpu_percent right.cpu_percent
      then positive
      else if lt right.cpu_percent left.cpu_percent
      then negative
      else compare_number left.pid right.pid

  unfoldable pub compare_name : ProcessRow f → ProcessRow f → Sign
  compare_name left right = elim (strcmp left.name right.name) [
    | negative ↦ negative
    | positive ↦ positive
    | equal ↦ compare_pid left right
  ]

  abbrev pub comparison : ProcessSort → ProcessRow f → ProcessRow f → Sign
  comparison sort_cpu = compare_cpu
  comparison sort_pid = compare_pid
  comparison sort_name = compare_name
  comparison sort_memory = compare_memory

  -- qsort(3), given the comparison
  abbrev pub Qsort : Type 0
  Qsort = (ProcessRow f → ProcessRow f → Sign) → List (ProcessRow f) → List (ProcessRow f)

  unfoldable pub sort_processes : Qsort → List (ProcessRow f) → ProcessSort → List (ProcessRow f)
  sort_processes qsort rows sort =
      if ltb (length rows) 2 then rows else qsort (comparison sort) rows

  -- The rows that stay visible after the filter, sorted.
  unfoldable pub visible_rows : Qsort → List (ProcessRow f) → AppState f → List (ProcessRow f)
  visible_rows qsort rows state =
      let kept = process_query_filter f rows (length rows) state.search in
      sort_processes qsort (take kept.write kept.rows) state.sort

  -- The loop that looks for the selected process.
  unfoldable pub find_row : ℕ → ℕ → List (ProcessRow f) → Option ℕ
  find_row pid starttime [] = none
  find_row pid starttime (row ∷ rest) =
      let later = find_row pid starttime rest in
      if row.pid == pid && row.starttime == starttime
      then some 0
      else elim later [ none ↦ none | some i ↦ some (suc i) ]

  -- The state with the row at its index `selected` as the selected process.
  unfoldable pub select_row : AppState f → List (ProcessRow f) → AppState f
  select_row state rows = elim (get_elem? rows state.selected) [
    | none ↦ state
    | some row ↦ record state { selected_pid = row.pid; selected_starttime = row.starttime }
  ]

  unfoldable pub align_selection : AppState f → List (ProcessRow f) → AppState f
  unfolding find_row
  align_selection state [] = record state { selected = 0; selected_pid = 0; selected_starttime = 0 }
  align_selection state (row ∷ rest) =
      let rows = row ∷ rest in
      let clamped : AppState f =
        if leb (length rows) state.selected
        then record state { selected = length rows - 1 }
        else state in
      let aligned = select_row clamped rows in
      if ltb 0 state.selected_pid
      then elim (find_row state.selected_pid state.selected_starttime rows) [
        | some i ↦ record state { selected = i }
        | none ↦ aligned
      ]
      else aligned
