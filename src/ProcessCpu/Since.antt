-- ===== src/ProcessCpu/Since.antt =====
-- src/process_cpu.c: the CPU share of each process since a snapshot, and the busiest processes.
use rookietop.Common.{
  ℕ, ◌-◌, Bool, true, false, ◌&&◌, ◌||◌, List, [], ◌∷◌, Option, none, some, leb, ◌==◌,
  if◌then◌else◌, ◌>>=◌, reject_if, length,
}
use rookietop.Libc.Chars.{Bytes}
use rookietop.Libc.Float.{Float}
use rookietop.ProcFs.{Directory, ProcFs, parse_pid}
use rookietop.Libc.Sort.{Sign, Qsort, compare_number}
use rookietop.Growing.{Allocator, Growing, allocate, collect}
use rookietop.Search.{Outcome, hit, miss, fault, search}
use rookietop.Top
use rookietop.Top.{Top}
use rookietop.ProcessCpu.Parse.{ProcessCpuStat}
use rookietop.ProcessCpu.Snapshot.{ProcessCpuCounter, counter_pid, read_process_stat}
pub mod Shares
pub mod Ranking

unfoldable pub find_previous : List ProcessCpuCounter → ℕ → Outcome ProcessCpuCounter
unfolding search
find_previous snapshot pid = search counter_pid snapshot pid

-- sizeof(struct process_cpu_info)
abbrev pub info_size : ℕ
info_size = 88

pub record ProcessCpuInfo (f : Float) : Type 0 where
  pub pid : ℕ
  pub name : Bytes
  pub cpu_percent : f.Double
  pub starttime : ℕ

module _ (f : Float) where
  open f use {Double, of_u64, literal, mul, div, lt, le}

  unfoldable pub compare_info_pid : ProcessCpuInfo f → ProcessCpuInfo f → Sign
  compare_info_pid left right = compare_number left.pid right.pid

  -- The share of a process, of which `old` is what find_previous returned.
  unfoldable pub share : Outcome ProcessCpuCounter → ProcessCpuStat → ℕ → Double
  share (hit old) current system_delta_ticks =
      if old.starttime == current.starttime && leb old.ticks current.ticks
      then div (mul (of_u64 (current.ticks - old.ticks)) (literal 100 1))
          (of_u64 system_delta_ticks)
      else literal 0 1
  share miss current system_delta_ticks = literal 0 1
  share fault current system_delta_ticks = literal 0 1

  -- What an entry of /proc gives, if it does not `continue`.
  unfoldable pub read_info : List ProcessCpuCounter → ℕ → ProcFs → Bytes → Option (ProcessCpuInfo f)
  read_info previous system_delta_ticks fs entry = do
    pid ← parse_pid entry
    current ← read_process_stat fs pid
    some (record {
      pid = current.pid;
      name = current.name;
      cpu_percent = share (find_previous previous pid) current system_delta_ticks;
      starttime = current.starttime;
    })

  -- `out[pos].cpu_percent >= candidate->cpu_percent`
  abbrev pub percent_ge : ProcessCpuInfo f → ProcessCpuInfo f → Bool
  percent_ge a b = le b.cpu_percent a.cpu_percent

  unfoldable pub insert_top : ℕ → Top (ProcessCpuInfo f) → ProcessCpuInfo f → Top (ProcessCpuInfo f)
  insert_top = Top.insert_top percent_ge

  -- `if (all[i].cpu_percent > 0.0) insert_top(…)` for each item
  unfoldable pub offer_all :
      ℕ → Top (ProcessCpuInfo f) → List (ProcessCpuInfo f) → Top (ProcessCpuInfo f)
  offer_all cap t [] = t
  offer_all cap t (info ∷ rest) =
      offer_all cap (if lt (literal 0 1) info.cpu_percent then insert_top cap t info else t) rest

  -- `out` with `count`, and `total`.
  pub record Busiest : Type 0 where
    pub top : Top (ProcessCpuInfo f)
    pub total : ℕ

  module _ (alloc : Allocator) (qsort : Qsort (ProcessCpuInfo f)) where
    unfoldable pub process_cpu_all_since :
        List ProcessCpuCounter → ℕ → ProcFs → Option (List (ProcessCpuInfo f))
    process_cpu_all_since previous system_delta_ticks fs = do
      _ ← reject_if (system_delta_ticks == 0) (some (tt {0}))
      dir ← fs.proc_dir
      empty ← allocate info_size alloc
      g ← collect info_size alloc (read_info previous system_delta_ticks fs) dir.entries empty
      reject_if (dir.read_error || dir.close_error)
          (some (if length g.items == 0 then [] else qsort compare_info_pid g.items))

    unfoldable pub process_cpu_top_since :
        List ProcessCpuCounter → ℕ → ProcFs → List (ProcessCpuInfo f) → ℕ → Option Busiest
    process_cpu_top_since previous system_delta_ticks fs out cap = do
      _ ← reject_if (system_delta_ticks == 0 || cap == 0) (some (tt {0}))
      all ← process_cpu_all_since previous system_delta_ticks fs
      some
          (record { top = offer_all cap (record { out = out; count = 0 }) all; total = length all })
