-- ===== src/Sampling/Rows.antt =====
-- The rows of sample_process_rows: which share each gets.
use rookietop.Common.{
  ℕ, ◌≡◌, ◌≢◌, refl, ◌==◌, ◌⊎◌, inl, inr, Bool-cases, Option-cases, List, [], ◌∷◌, map, none, some,
  if◌then◌else◌, get_elem?, arith, >>=-elim, reject_if, length, ==_iff,
}
use mathlib.Core.Path.{subst}
use rookietop.Libc.Float.{Float}
use rookietop.ProcFs.{ProcFs}
use rookietop.Growing.{Allocator, allocate, collect}
use rookietop.ProcessCpu.Snapshot.{ProcessCpuCounter}
use rookietop.Libc.Sort.{IsAscending, IsQsort, IsSortedBy-IsAscending, compare_number-IsConsistent}
use rookietop.Search.{Outcome, hit, miss, fault, search}
use rookietop.Search.Correct.{Absent, Decides, search-Decides}
use rookietop.ProcessCpu.Since.{
  ProcessCpuInfo, compare_info_pid, process_cpu_all_since, info_size, read_info,
}
use rookietop.ProcessList.{ProcessRow, process_list_read}
use rookietop.Sampling.{
  Sorts, Sources, info_pid, fill_row, sample_infos, sample_cpu, sample_process_rows,
}

module _ (f : Float) where
  -- What the shares of `items` make of a row: it takes the share of an item with its pid and its
  -- start time, or stays as it was, where no item has its pid or one with another start time does.
  abbrev pub Fills : List (ProcessCpuInfo f) → ProcessRow f → ProcessRow f → Type 0
  Fills items row filled =
      ((i : ℕ) × (info : ProcessCpuInfo f) × (get_elem? items i ≡ some info)
        × (info.pid ≡ row.pid)
        × (info.starttime ≡ row.starttime)
        × (filled ≡ record row { cpu_percent = info.cpu_percent }))
      ⊎ ((filled ≡ row)
          × (Absent (info_pid f) row.pid items
              ⊎ ((i : ℕ) × (info : ProcessCpuInfo f) × (get_elem? items i ≡ some info)
                  × (info.pid ≡ row.pid)
                  × (info.starttime ≢ row.starttime))))

  fill_row-Fills :
      (items : List (ProcessCpuInfo f)) (row : ProcessRow f)
      → IsAscending (info_pid f) items
      → Fills items row (fill_row f items row)
  unfolding fill_row
  fill_row-Fills items row sorted =
      go (search (info_pid f) items row.pid) (search-Decides (info_pid f) items row.pid sorted)
    where
      go :
          (o : Outcome (ProcessCpuInfo f))
          → Decides (info_pid f) items row.pid o
          → Fills items row (elim o [
            | miss ↦ row
            | fault ↦ row
            | hit info ↦
                if info.starttime == row.starttime
                then record row { cpu_percent = info.cpu_percent }
                else row
          ])
      go (hit info) (same, i, cell) = elim (Bool-cases (info.starttime == row.starttime)) [
        | inl e ↦ rw e (inl (i, info, cell, same, (==_iff info.starttime row.starttime).0 e, refl))
        | inr e ↦ rw e (inr (refl, inr (i, info, cell, same, ground arith)))
      ]
      go miss d = inr (refl, inl d)
      go fault d = absurd d

  abbrev pub FillsAll : List (ProcessCpuInfo f) → List (ProcessRow f) → List (ProcessRow f) → Type 0
  FillsAll items [] [] = Unit
  FillsAll items (row ∷ rows) (filled ∷ rest) = Fills items row filled × FillsAll items rows rest
  FillsAll items [] (filled ∷ rest) = ⊥
  FillsAll items (row ∷ rows) [] = ⊥

  fill_rows-FillsAll :
      (items : List (ProcessCpuInfo f)) (rows : List (ProcessRow f))
      → IsAscending (info_pid f) items
      → FillsAll items rows (map (fill_row f items) rows)
  fill_rows-FillsAll items [] sorted = tt
  fill_rows-FillsAll items (row ∷ rows) sorted =
      (fill_row-Fills items row sorted, fill_rows-FillsAll items rows sorted)

  module _ (sorts : Sorts f) (sorted : IsQsort sorts.infos) where
    sort-IsAscending :
        (items : List (ProcessCpuInfo f))
        → IsAscending (info_pid f) (sorts.infos (compare_info_pid f) items)
    unfolding compare_info_pid
    sort-IsAscending items =
        IsSortedBy-IsAscending (info_pid f) (sorts.infos (compare_info_pid f) items)
          (sorted.sorted (compare_info_pid f) items (compare_number-IsConsistent (info_pid f)))

    process_cpu_all_since-IsAscending :
        (alloc : Allocator) (previous : List ProcessCpuCounter) (ticks : ℕ) (fs : ProcFs)
        {items : List (ProcessCpuInfo f)}
        → process_cpu_all_since f alloc sorts.infos previous ticks fs ≡ some items
        → IsAscending (info_pid f) items
    unfolding process_cpu_all_since
    process_cpu_all_since-IsAscending alloc previous ticks fs {items} h =
        >>=-elim (reject_if (ticks == 0) (some (tt {0}))) _ h (λ some_ticks _ h1.
          >>=-elim fs.proc_dir _ h1 (λ dir _ h2.
            >>=-elim (allocate info_size alloc) _ h2 (λ empty _ h3.
              >>=-elim (collect info_size alloc (read_info f previous ticks fs) dir.entries empty) _
                h3
                (λ g _ h4. elim (Bool-cases (length g.items == 0)) [
                  | inl none_found ↦
                      let same : [] ≡ items = ground arith in
                      subst (IsAscending (info_pid f)) same tt
                  | inr found ↦
                      let same : sorts.infos (compare_info_pid f) g.items ≡ items = ground arith in
                      subst (IsAscending (info_pid f)) same (sort-IsAscending g.items)
                ]))))

    sample_infos-IsAscending :
        (sources : Sources) {items : List (ProcessCpuInfo f)}
        → sample_infos f sorts sources ≡ some items
        → IsAscending (info_pid f) items
    unfolding sample_infos
    sample_infos-IsAscending sources h = >>=-elim (sample_cpu f sorts sources) _ h (λ taken _ h1.
        process_cpu_all_since-IsAscending sources.info_alloc taken.0 taken.1 sources.fs_after h1)

    -- With a qsort that sorts by any consistent comparison and keeps the items, every list of rows
    -- that sample_process_rows returns is the one that process_list_read returned, in which, if the
    -- shares could be sampled, a row has the share of a process with its pid and its start time;
    -- every other row is unchanged, and either no process of the sample has its pid or one has it
    -- with another start time.
    pub sample_process_rows-FillsAll :
        (sources : Sources) {filled : List (ProcessRow f)}
        → sample_process_rows f sorts sources ≡ some filled
        → (rows : List (ProcessRow f)) × (process_list_read f sources.list_alloc sources.fs_list
            ≡ some rows)
          × (((sample_infos f sorts sources ≡ none) × (filled ≡ rows))
              ⊎ ((items : List (ProcessCpuInfo f)) × (sample_infos f sorts sources ≡ some items)
                  × FillsAll items rows filled))
    unfolding sample_process_rows
    sample_process_rows-FillsAll sources {filled} h =
        >>=-elim (process_list_read f sources.list_alloc sources.fs_list) _ h (λ rows read h1.
          elim (Option-cases (sample_infos f sorts sources)) [
            | inl nothing ↦ (rows, read, inl (nothing, ground arith))
            | inr (items, sampled) ↦
                let same : map (fill_row f items) rows ≡ filled = ground arith in
                (
                  rows,
                  read,
                  inr (
                    items,
                    sampled,
                    subst (FillsAll items rows) same
                        (fill_rows-FillsAll items rows (sample_infos-IsAscending sources sampled)),
                  ),
                )
          ])
