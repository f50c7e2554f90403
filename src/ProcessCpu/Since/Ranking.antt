-- ===== src/ProcessCpu/Since/Ranking.antt =====
-- The processes that process_cpu_top_since reports.
use rookietop.Common.{
  ℕ, ◌<◌, ◌≡◌, refl, List, [], ◌∷◌, some, if◌then◌else◌, length, arith, Bool-cases, inl, inr,
}
use rookietop.Libc.Float.{Float, IsOrdered}
use rookietop.ProcFs.{ProcFs}
use rookietop.Growing.{Allocator}
use rookietop.Libc.Sort.{Qsort}
use rookietop.Top
use rookietop.Top.{Top}
use rookietop.Top.Sorted.{AllComparable}
use rookietop.Top.Insert.{Best, insert_all-Best}
use rookietop.ProcessCpu.Snapshot.{ProcessCpuCounter}
use rookietop.ProcessCpu.Since.{
  ProcessCpuInfo, percent_ge, insert_top, offer_all, Busiest, process_cpu_all_since,
  process_cpu_top_since,
}

module _ (f : Float) where
  open f use {literal, lt}

  -- The processes with a share above 0.0.
  pub active : List (ProcessCpuInfo f) → List (ProcessCpuInfo f)
  active [] = []
  active (info ∷ rest) =
      if lt (literal 0 1) info.cpu_percent then info ∷ active rest else active rest

  offer_all-active :
      (cap : ℕ) (t : Top (ProcessCpuInfo f)) (infos : List (ProcessCpuInfo f))
      → offer_all f cap t infos ≡ Top.insert_all (percent_ge f) cap t (active infos)
  unfolding offer_all active Top.insert_all insert_top
  offer_all-active cap t [] = refl
  offer_all-active cap t (info ∷ rest) = elim (Bool-cases (lt (literal 0 1) info.cpu_percent)) [
    | inl busy ↦ rw busy (offer_all-active cap (Top.insert_top (percent_ge f) cap t info) rest)
    | inr idle ↦ rw idle (offer_all-active cap t rest)
  ]

  module _ (ordered : IsOrdered f) where
    -- A share above 0.0 is a number.
    active-AllComparable :
        (infos : List (ProcessCpuInfo f)) → AllComparable (percent_ge f) (active infos)
    unfolding active
    active-AllComparable [] = tt
    active-AllComparable (info ∷ rest) = elim (Bool-cases (lt (literal 0 1) info.cpu_percent)) [
      | inl busy ↦
          rw busy
            ((ordered.lt_numbers (literal 0 1) info.cpu_percent busy).1, active-AllComparable rest)
      | inr idle ↦ rw idle (active-AllComparable rest)
    ]

    -- Where the doubles that are not a NaN compare as numbers do, and a comparison with a NaN
    -- fails: when process_cpu_all_since succeeds, process_cpu_top_since succeeds with an array of at least
    -- one cell: it holds the first cells of the processes with a share above 0.0 in descending
    -- order of their share, and its total counts all processes.
    pub process_cpu_top_since-Best :
        (alloc : Allocator) (qsort : Qsort (ProcessCpuInfo f)) (previous : List ProcessCpuCounter)
        (delta : ℕ) (fs : ProcFs) (out all : List (ProcessCpuInfo f)) (cap : ℕ)
        → process_cpu_all_since f alloc qsort previous delta fs ≡ some all
        → 0 < delta
        → 0 < cap
        → length out ≡ cap
        → (r : Busiest f) × (process_cpu_top_since f alloc qsort previous delta fs out cap ≡ some r)
          × Best (percent_ge f) cap (active all) r.top
          × (r.total ≡ length all)
    unfolding process_cpu_top_since
    process_cpu_top_since-Best alloc qsort previous delta fs out all cap h ticks some_cell size =
        let empty : Top (ProcessCpuInfo f) = record { out = out; count = 0 } in
        (
          record { top = offer_all f cap empty all; total = length all },
          ground arith,
          rw (offer_all-active cap empty all) (
              insert_all-Best (percent_ge f)
                (λ a b h k. ordered.total b.cpu_percent a.cpu_percent k h)
                (λ a b c h k. ordered.trans c.cpu_percent b.cpu_percent a.cpu_percent k h) cap out
                (active all) size (active-AllComparable all)),
          refl,
        )
