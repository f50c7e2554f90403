-- ===== src/Examples/Tables.antt =====
-- The tables that grow, the snapshot of the CPU counters, and the busiest processes.
use rookietop.Common.{
  ℕ, ◌+◌, ◌/◌, ◌≤◌, ◌≡◌, ◌⊎◌, refl, true, List, [], ◌∷◌, ◌++◌, Option, none, some, if◌then◌else◌,
  leb, ◌==◌, arith, length,
}
use mathlib.Core.List.{Perm}
use rookietop.Libc.Chars.{Bytes, codes}
use rookietop.Libc.Numbers.{u64_max}
use rookietop.Libc.Sort.{IsAscending}
use rookietop.Libc.Sort.{compare_number}
use rookietop.ProcFs.{Directory}
use rookietop.Top.Insert.{Best}
use rookietop.Growing.{Growing, collect, offer, push, make_room, allocate}
use rookietop.Growing.Bounds.{collect-IsRoomy, collect_succeeds, IsRoomy, items_of}
use rookietop.ProcessCpu.Snapshot.{
  compare_counter, ProcessCpuCounter, counter_pid, read_counter, process_cpu_snapshot_take,
}
use rookietop.ProcessCpu.Snapshot.Order.{process_cpu_snapshot_take-eq-some}
use rookietop.ProcessCpu.Since.{
  compare_info_pid, ProcessCpuInfo, read_info, share, find_previous, percent_ge, Busiest,
  process_cpu_all_since, process_cpu_top_since,
}
use rookietop.ProcessCpu.Since.Ranking.{process_cpu_top_since-Best, active}
use rookietop.Top.Sorted.{insert, insert_each}
use rookietop.Search.{search}
use rookietop.Examples.Data.{
  naturals, naturals-IsOrdered, small_proc, counter_7, sort, sort-IsQsort, parse_pid_self,
  parse_pid-7, parse_pid-9, read_process_stat-7, read_process_stat-9,
}

leb-total : (a b : ℕ) → (leb b a ≡ true) ⊎ (leb a b ≡ true)
leb-total a b = ground arith

leb_trans : (a b c : ℕ) → leb b a ≡ true → leb c b ≡ true → leb c a ≡ true
leb_trans a b c h k = ground arith

abbrev two_cells : Growing ℕ
two_cells = record { items = 1 ∷ 2 ∷ []; capacity = 2 }

two_cells-IsRoomy : IsRoomy 24 two_cells
two_cells-IsRoomy = record { within = omega arith; sized = omega arith; nonempty = omega arith }

abbrev read_length : Bytes → Option ℕ
read_length entry = if length entry == 0 then none else some (length entry)

abbrev names : List Bytes
names = codes "7" ∷ [] ∷ codes "42" ∷ []

abbrev four_cells : Growing ℕ
four_cells = record { items = 1 ∷ 2 ∷ 1 ∷ 2 ∷ []; capacity = 4 }

names_collected : collect 24 (λ n. true) read_length names two_cells ≡ some four_cells
unfolding collect offer push make_room
names_collected = refl

collect-IsRoomy_example :
    IsRoomy 24 four_cells × (four_cells.items ≡ two_cells.items ++ items_of read_length names)
collect-IsRoomy_example =
    collect-IsRoomy 24 (λ n. true) read_length names two_cells two_cells-IsRoomy names_collected

names_fit : length two_cells.items + length (items_of read_length names) ≤ u64_max / 2 / 24
unfolding items_of
names_fit = omega arith

collect_succeeds_example :
    (g' : Growing ℕ) × (collect 24 (λ n. true) read_length names two_cells ≡ some g')
collect_succeeds_example =
    collect_succeeds 24 (λ n. true) read_length names two_cells (λ n. refl) names_fit

abbrev taken : List ProcessCpuCounter
taken = record { pid = 7; ticks = 42; starttime = 900 } ∷ []

snapshot_taken : process_cpu_snapshot_take true (λ n. true) sort small_proc ≡ some taken
unfolding process_cpu_snapshot_take collect offer push make_room allocate read_counter insert_each
    insert compare_counter compare_number
snapshot_taken =
    rw (parse_pid_self, parse_pid-7, parse_pid-9, read_process_stat-7, read_process_stat-9) refl

process_cpu_snapshot_take-eq-some_example :
    (dir : Directory) × (small_proc.proc_dir ≡ some dir)
    × Perm taken (items_of (read_counter small_proc) dir.entries)
    × IsAscending counter_pid taken
process_cpu_snapshot_take-eq-some_example =
    process_cpu_snapshot_take-eq-some true (λ n. true) sort sort-IsQsort small_proc snapshot_taken

abbrev info_pid : ProcessCpuInfo naturals → ℕ
info_pid info = info.pid

abbrev busy_7 : ProcessCpuInfo naturals
busy_7 = record { pid = 7; name = codes "sh"; cpu_percent = 20; starttime = 900 }

abbrev no_info : ProcessCpuInfo naturals
no_info = record { pid = 0; name = []; cpu_percent = 0; starttime = 0 }

all_taken :
    process_cpu_all_since naturals (λ n. true) sort (counter_7 ∷ []) 10 small_proc
    ≡ some (busy_7 ∷ [])
unfolding process_cpu_all_since collect offer push make_room allocate read_info share find_previous
    search insert_each insert compare_info_pid compare_number
all_taken =
    rw (parse_pid_self, parse_pid-7, parse_pid-9, read_process_stat-7, read_process_stat-9) refl

process_cpu_top_since-Best_example :
    (r : Busiest naturals) × (process_cpu_top_since naturals
        (λ n. true)
        sort
        (counter_7 ∷ [])
        10
        small_proc
        (no_info ∷ [])
        1
      ≡ some r)
    × Best (percent_ge naturals) 1 (active naturals (busy_7 ∷ [])) r.top
    × (r.total ≡ 1)
process_cpu_top_since-Best_example =
    process_cpu_top_since-Best naturals naturals-IsOrdered (λ n. true) sort (counter_7 ∷ []) 10
      small_proc (no_info ∷ []) (busy_7 ∷ []) 1 all_taken (omega arith) (omega arith) refl
