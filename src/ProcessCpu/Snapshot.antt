-- ===== src/ProcessCpu/Snapshot.antt =====
-- src/process_cpu.c: process_cpu_snapshot_take. The allocations and qsort are parameters.
use rookietop.Common.{ℕ, Bool, true, false, List, Option, none, some, ◌||◌, not, ◌>>=◌, reject_if}
use rookietop.Libc.Chars.{Bytes, codes}
use rookietop.Libc.Sort.{Sign, Qsort, compare_number}
use rookietop.Libc.Files.{File, first_line}
use rookietop.ProcFs.{Directory, ProcFs, open_proc, parse_pid}
use rookietop.Growing.{Allocator, Growing, allocate, collect}
use rookietop.ProcessCpu.Parse.{ProcessCpuStat, process_cpu_parse_stat}
pub mod Order

pub record ProcessCpuCounter : Type 0 where
  pub pid : ℕ
  pub ticks : ℕ
  pub starttime : ℕ

unfoldable pub read_process_stat : ProcFs → ℕ → Option ProcessCpuStat
read_process_stat fs pid = do
  file ← open_proc fs pid (codes "stat")
  line ← first_line 1024 file
  process_cpu_parse_stat line

-- What an entry of /proc gives, if it does not `continue`.
unfoldable pub read_counter : ProcFs → Bytes → Option ProcessCpuCounter
read_counter fs entry = do
  pid ← parse_pid entry
  stat ← read_process_stat fs pid
  some (record { pid = stat.pid; ticks = stat.ticks; starttime = stat.starttime })

abbrev pub counter_pid : ProcessCpuCounter → ℕ
counter_pid c = c.pid

-- sizeof(struct process_cpu_counter)
abbrev pub counter_size : ℕ
counter_size = 24

unfoldable pub compare_counter : ProcessCpuCounter → ProcessCpuCounter → Sign
compare_counter left right = compare_number left.pid right.pid

module _ (calloc_ok : Bool) (alloc : Allocator) (qsort : Qsort ProcessCpuCounter) where
  unfoldable pub process_cpu_snapshot_take : ProcFs → Option (List ProcessCpuCounter)
  process_cpu_snapshot_take fs = do
    dir ← fs.proc_dir
    empty ← reject_if (not calloc_ok) (allocate counter_size alloc)
    g ← collect counter_size alloc (read_counter fs) dir.entries empty
    reject_if (dir.read_error || dir.close_error) (some (qsort compare_counter g.items))
