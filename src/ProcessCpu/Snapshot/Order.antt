-- ===== src/ProcessCpu/Snapshot/Order.antt =====
-- The snapshot that process_cpu_snapshot_take returns.
use rookietop.Common.{◌≡◌, Bool, List, ◌++◌, some, not, reject_if, arith, >>=-eq-some, ap, ◌∙◌}
use mathlib.Core.List.{Perm}
use rookietop.Libc.Sort.{
  IsAscending, IsQsort, Qsort, IsConsistent, IsSortedBy-IsAscending, compare_number-IsConsistent,
}
use rookietop.ProcFs.{Directory, ProcFs}
use rookietop.Growing.{Allocator, allocate, collect}
use rookietop.Growing.Bounds.{items_of, collect-IsRoomy, allocate-IsRoomy}
use rookietop.ProcessCpu.Snapshot.{
  ProcessCpuCounter, counter_pid, read_counter, counter_size, process_cpu_snapshot_take,
  compare_counter,
}

module _ (calloc_ok : Bool) (alloc : Allocator) (qsort : Qsort ProcessCpuCounter)
    (sorts : IsQsort qsort) where
  compare_counter-IsConsistent : IsConsistent compare_counter
  unfolding compare_counter
  compare_counter-IsConsistent = compare_number-IsConsistent counter_pid

  sort-IsAscending :
      (items : List ProcessCpuCounter) → IsAscending counter_pid (qsort compare_counter items)
  unfolding compare_counter
  sort-IsAscending items =
      IsSortedBy-IsAscending counter_pid (qsort compare_counter items)
        (sorts.sorted compare_counter items compare_counter-IsConsistent)

  -- With a qsort that sorts by any consistent comparison and keeps the items, a snapshot that
  -- process_cpu_snapshot_take returns is in ascending order of pid, as the binary
  -- search over it needs, and holds one counter for each entry of /proc that could be read.
  pub process_cpu_snapshot_take-eq-some :
      (fs : ProcFs) {snapshot : List ProcessCpuCounter}
      → process_cpu_snapshot_take calloc_ok alloc qsort fs ≡ some snapshot
      → (dir : Directory) × (fs.proc_dir ≡ some dir)
        × Perm snapshot (items_of (read_counter fs) dir.entries)
        × IsAscending counter_pid snapshot
  unfolding process_cpu_snapshot_take
  process_cpu_snapshot_take-eq-some fs {snapshot} h =
      let (dir, opened, h1) = >>=-eq-some fs.proc_dir _ h in
      let (empty, allocated, h2) =
        >>=-eq-some (reject_if (not calloc_ok) (allocate counter_size alloc)) _ h1 in
      let (g, collected, h3) =
        >>=-eq-some (collect counter_size alloc (read_counter fs) dir.entries empty) _ h2 in
      let made : allocate counter_size alloc ≡ some empty = ground arith in
      let start = allocate-IsRoomy counter_size alloc (omega arith) made in
      let whole =
        collect-IsRoomy counter_size alloc (read_counter fs) dir.entries empty start.0 collected in
      let items : g.items ≡ items_of (read_counter fs) dir.entries =
        whole.1 ∙ ap (λ l. l ++ items_of (read_counter fs) dir.entries) start.1 in
      let result : qsort compare_counter g.items ≡ snapshot = ground arith in
      (
        dir,
        opened,
        rw (← result, ← items) (sorts.perm compare_counter g.items compare_counter-IsConsistent),
        rw (← result) (sort-IsAscending g.items),
      )
