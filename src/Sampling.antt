-- ===== src/Sampling.antt =====
-- What src/main.c samples: collect_overview for the overview, and sample_process_rows for the
-- process list.
use rookietop.Common.{
  ℕ, Bool, true, false, not, List, map, Option, none, some, ◌==◌, if◌then◌else◌, ◌>>=◌, reject_if,
}
use rookietop.Libc.Float.{Float}
use rookietop.Libc.Int.{ℤ, ◌-ℤ◌}
use rookietop.Libc.Files.{File}
use rookietop.Libc.Sort.{Qsort}
use rookietop.ProcFs.{ProcFs}
use rookietop.Growing.{Allocator}
use rookietop.Search.{hit, miss, fault, search}
use rookietop.Host.{Machine, host_read}
use rookietop.Cpu.{cpu_read, cpu_usage, cpu_total_delta}
use rookietop.Memory.{MemorySample, memory_read, memory_usage}
use rookietop.Disk.{DiskSample, Statvfs, disk_read_root, disk_usage}
use rookietop.Network.{network_read, network_rate}
use rookietop.Process.{process_top_memory}
use rookietop.ProcessCpu.Snapshot.{ProcessCpuCounter, process_cpu_snapshot_take}
use rookietop.ProcessCpu.Since.{ProcessCpuInfo, process_cpu_all_since, process_cpu_top_since}
use rookietop.ProcessList.{ProcessRow, process_list_read}
use rookietop.Overview.{Overview, no_overview, top_process_count}
pub mod Numbers
pub mod Rows

-- `struct timespec`
pub record Timespec : Type 0 where
  pub tv_sec : ℤ
  pub tv_nsec : ℤ

-- What one sample meets: the files, the clock and the allocations before and after the wait,
-- whether wait_ns returns 0, and /proc at the time of each walk over it (`fs_list` is that of
-- process_top_memory or process_list_read).
pub record Sources : Type 0 where
  pub machine : Machine
  pub meminfo : Option File
  pub root : Option Statvfs
  pub cpu_before : Option File
  pub net_before : Option File
  pub clock_before : Option Timespec
  pub calloc_ok : Bool
  pub snapshot_alloc : Allocator
  pub fs_before : ProcFs
  pub wait_ok : Bool
  pub cpu_after : Option File
  pub net_after : Option File
  pub clock_after : Option Timespec
  pub list_alloc : Allocator
  pub fs_list : ProcFs
  pub info_alloc : Allocator
  pub fs_after : ProcFs

-- qsort for the two types that are sorted by pid.
pub record Sorts (f : Float) : Type 0 where
  pub counters : Qsort ProcessCpuCounter
  pub infos : Qsort (ProcessCpuInfo f)

module _ (f : Float) where
  open f use {Double, literal, add, div, of_int}

  unfoldable pub elapsed_seconds : Timespec → Timespec → Double
  elapsed_seconds start end =
      add (of_int (end.tv_sec -ℤ start.tv_sec))
        (div (of_int (end.tv_nsec -ℤ start.tv_nsec)) (literal 1000000000 1))

  unfoldable pub take_snapshot : Sorts f → Sources → Option (List ProcessCpuCounter)
  take_snapshot sorts sources =
      process_cpu_snapshot_take sources.calloc_ok sources.snapshot_alloc sorts.counters
        sources.fs_before

  -- The two samples of the network and of the clock: `none` is network_ok = 0.
  unfoldable pub sample_network : Sources → Option (Double × Double)
  sample_network sources = do
    net_prev ← network_read sources.net_before
    net_start ← sources.clock_before
    net_curr ← network_read sources.net_after
    net_end ← sources.clock_after
    network_rate f net_prev net_curr (elapsed_seconds net_start net_end)

  abbrev pub with_numbers :
      MemorySample → DiskSample → Double → Double × ℕ × ℕ → Double × ℕ → Overview f
  with_numbers memory disk cpu_percent (memory_percent, memory_used, swap_used)
        (disk_percent, disk_used) =
      record (no_overview f) {
        memory = memory;
        disk = disk;
        cpu_percent = cpu_percent;
        memory_percent = memory_percent;
        memory_used_kib = memory_used;
        swap_used_kib = swap_used;
        disk_percent = disk_percent;
        disk_used_bytes = disk_used;
      }

  abbrev pub with_host : Sources → Overview f → Overview f
  with_host sources view = elim (host_read f sources.machine) [
    | none ↦ record view { host_ok = false }
    | some host ↦ record view { host = host; host_ok = true }
  ]

  abbrev pub with_network : Sources → Overview f → Overview f
  with_network sources view = elim (sample_network sources) [
    | none ↦ record view { network_ok = false }
    | some (rx, tx) ↦ record view { rx_per_sec = rx; tx_per_sec = tx; network_ok = true }
  ]

  -- The cells of a table that could not be read are not used, and stay zero here.
  abbrev pub with_cpu_top : Sorts f → Sources → ℕ → Overview f → Overview f
  with_cpu_top sorts sources system_delta_ticks view =
      elim (do
        process_prev ← take_snapshot sorts sources
        process_cpu_top_since f sources.info_alloc sorts.infos process_prev system_delta_ticks
            sources.fs_after view.cpu_top top_process_count) [
              | none ↦ record view { cpu_process_ok = false }
              | some found ↦ record view {
                cpu_top = found.top.out;
                cpu_process_count = found.top.count;
                cpu_process_total = found.total;
                cpu_process_ok = true;
              }
            ]

  abbrev pub with_memory_top : Sources → Overview f → Overview f
  with_memory_top sources view =
      elim (process_top_memory sources.fs_list view.memory_top top_process_count) [
        | none ↦ record view { memory_process_ok = false }
        | some found ↦ record view {
          memory_top = found.top.out;
          memory_process_count = found.top.count;
          memory_process_total = found.total;
          memory_process_ok = true;
        }
      ]

  unfoldable pub collect_overview : Sorts f → Sources → Option (Overview f)
  collect_overview sorts sources = do
    memory ← memory_read sources.meminfo
    disk ← disk_read_root sources.root
    cpu_prev ← cpu_read sources.cpu_before
    _ ← reject_if (not sources.wait_ok) (some (tt {0}))
    cpu_curr ← cpu_read sources.cpu_after
    cpu_percent ← cpu_usage f cpu_prev cpu_curr
    system_delta_ticks ← cpu_total_delta cpu_prev cpu_curr
    memory_part ← memory_usage f memory
    disk_part ← disk_usage f disk
    some (
        with_memory_top sources (
          with_cpu_top sorts sources system_delta_ticks (
            with_network sources
              (with_host sources (with_numbers memory disk cpu_percent memory_part disk_part)))))

  abbrev pub info_pid : ProcessCpuInfo f → ℕ
  info_pid info = info.pid

  -- One round of the loop that enters the shares.
  unfoldable pub fill_row : List (ProcessCpuInfo f) → ProcessRow f → ProcessRow f
  fill_row cpu_items row = elim (search info_pid cpu_items row.pid) [
    | miss ↦ row
    | fault ↦ row
    | hit info ↦
        if info.starttime == row.starttime
        then record row { cpu_percent = info.cpu_percent }
        else row
  ]

  -- The snapshot and the ticks that pass: `none` is cpu_sample_ok = 0.
  unfoldable pub sample_cpu : Sorts f → Sources → Option (List ProcessCpuCounter × ℕ)
  sample_cpu sorts sources = do
    cpu_prev ← cpu_read sources.cpu_before
    previous ← take_snapshot sorts sources
    _ ← reject_if (not sources.wait_ok) (some (tt {0}))
    cpu_curr ← cpu_read sources.cpu_after
    system_delta_ticks ← cpu_total_delta cpu_prev cpu_curr
    some (previous, system_delta_ticks)

  -- The shares of all processes, if they can be had.
  unfoldable pub sample_infos : Sorts f → Sources → Option (List (ProcessCpuInfo f))
  sample_infos sorts sources = do
    (previous, system_delta_ticks) ← sample_cpu sorts sources
    process_cpu_all_since f sources.info_alloc sorts.infos previous system_delta_ticks
        sources.fs_after

  unfoldable pub sample_process_rows : Sorts f → Sources → Option (List (ProcessRow f))
  sample_process_rows sorts sources = do
    rows ← process_list_read f sources.list_alloc sources.fs_list
    some (elim (sample_infos sorts sources) [
      | none ↦ rows
      | some cpu_items ↦ map (fill_row cpu_items) rows
    ])
