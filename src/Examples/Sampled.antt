-- ===== src/Examples/Sampled.antt =====
-- A sample of a small machine, and the run that prints it.
use mathlib.Core.Option as Option
use mathlib.Core.Option.{some-injective}
use mathlib.Core.Path.{subst}
use rookietop.Common.{◌≡◌, ◌⊎◌, refl, true, false, List, [], ◌∷◌, none, some, arith, sym, ◌∙◌}
use rookietop.Libc.Chars.{
  Bytes, codes, str_eq, strip_prefix, skip_while, take_until, trim_end, is_blank, is_line_end,
  is_space, is_digit, c_string, strchr, strrchr,
}
use rookietop.Libc.Decimal.{decimal, digits_below, all_digits, all_digits-decimal}
use rookietop.Libc.Numbers.{conversions}
use rookietop.Libc.Sort.{compare_number}
use rookietop.Libc.Files.{lines, fgets_loop, first_line}
use rookietop.Reading.{amount}
use rookietop.ProcFs.{ProcFs, open_proc, parse_pid}
use rookietop.Cpu.{cpu_parse_line, cpu_read, delta, cpu_deltas, cpu_usage, cpu_total_delta}
use rookietop.Memory.{read_kib, parse_line, parse_lines, memory_parse, memory_read, memory_usage}
use rookietop.Disk.{blocks_to_bytes, disk_read_root, disk_usage}
use rookietop.Network.{network_read}
use rookietop.Process.{process_top_memory}
use rookietop.ProcessCpu.Snapshot.{
  compare_counter, process_cpu_snapshot_take, read_counter, read_process_stat,
}
use rookietop.ProcessList.{
  ProcessRow, process_list_read, read_row_entry, read_row, row_lines, parse_status_line,
  scan_threads, scan_state, scan_name, read_starttime,
}
use rookietop.Host.{host_read}
use rookietop.Overview.{Overview, no_overview, diagnosis_input}
use rookietop.Sampling.{
  Sources, Sorts, collect_overview, sample_network, take_snapshot, sample_cpu, sample_infos,
  sample_process_rows, fill_row,
}
use rookietop.Sampling.Rows.{FillsAll, sample_process_rows-FillsAll}
use rookietop.Search.{search, search_loop}
use rookietop.Growing.{collect, offer, push, make_room, allocate}
use rookietop.ProcessCpu.Since.{
  compare_info_pid, ProcessCpuInfo, process_cpu_all_since, read_info, find_previous, share,
}
use rookietop.ProcessCpu.Parse.{
  process_cpu_parse_stat, parse_stat_pid, parse_stat_name, read_fields, read_field, store_field,
  is_not_space, parse_uint_token,
}
use rookietop.Top.Sorted.{insert_each, insert}
use rookietop.Sampling.Numbers.{
  numbers_of, required, IsConsistent, collect_overview-required, collect_overview-IsConsistent,
}
use rookietop.Render.Compact.{render_compact}
use rookietop.Render.Plain.{is_plain, IsPlain, PrintsPlain, HasPlainNames}
use rookietop.Main.{Environment, ends, main, no_data_message}
use rookietop.Main.Snapshot.{main_once}
use rookietop.Examples.Data.{naturals, good_file, sort, sort-IsQsort, small_proc}

abbrev empty_proc : ProcFs
empty_proc = record { proc_dir = none; open_file = λ path. none }

-- A machine of which only the numbers that a sample needs can be read.
abbrev bare : Sources
bare = record {
  machine = record {
    gethostname = none;
    uname_release = none;
    cores = 0;
    uptime = none;
    loadavg = none;
    thermal_dir = none;
    open_file = λ path. none;
  };
  meminfo =
      some (good_file "MemTotal: 1000 kB\nMemAvailable: 600 kB\nSwapTotal: 0 kB\nSwapFree: 0 kB\n");
  root = some (record { f_frsize = 1; f_bsize = 1; f_blocks = 1000; f_bavail = 880 });
  cpu_before = some (good_file "cpu 10 0 0 90 0 0 0 0\n");
  net_before = none;
  clock_before = none;
  calloc_ok = true;
  snapshot_alloc = λ n. true;
  fs_before = empty_proc;
  wait_ok = true;
  cpu_after = some (good_file "cpu 20 0 0 180 0 0 0 0\n");
  net_after = none;
  clock_after = none;
  list_alloc = λ n. true;
  fs_list = empty_proc;
  info_alloc = λ n. true;
  fs_after = empty_proc;
}

abbrev sorts : Sorts naturals
sorts = record { counters = λ compare items. items; infos = λ compare items. items }

abbrev bare_view : Overview naturals
bare_view = record (no_overview naturals) {
  memory = record { total_kib = 1000; available_kib = 600; swap_total_kib = 0; swap_free_kib = 0 };
  disk = record { total_bytes = 1000; available_bytes = 880 };
  cpu_percent = 10;
  memory_percent = 40;
  memory_used_kib = 400;
  disk_percent = 12;
  disk_used_bytes = 120;
}

collected : collect_overview naturals sorts bare ≡ some bare_view
unfolding collect_overview host_read sample_network take_snapshot network_read process_top_memory
    process_cpu_snapshot_take cpu_parse_line cpu_read delta cpu_deltas cpu_usage cpu_total_delta
    read_kib parse_line parse_lines memory_parse memory_read memory_usage blocks_to_bytes
    disk_read_root disk_usage conversions first_line lines fgets_loop c_string amount str_eq
    strip_prefix skip_while take_until trim_end is_blank is_line_end is_space is_digit
collected = refl

collect_overview-required_example :
    Option.map (numbers_of naturals) (collect_overview naturals sorts bare)
    ≡ required naturals bare.meminfo bare.root bare.cpu_before true bare.cpu_after
collect_overview-required_example = collect_overview-required naturals sorts bare

collect_overview-IsConsistent_example : IsConsistent naturals (numbers_of naturals bare_view)
collect_overview-IsConsistent_example = collect_overview-IsConsistent naturals sorts bare collected

all_digits-IsPlain : (s : Bytes) → all_digits s ≡ true → is_plain s ≡ true
unfolding all_digits is_plain is_digit
all_digits-IsPlain [] h = refl
all_digits-IsPlain (c ∷ cs) h = ground (arith, all_digits-IsPlain cs)

naturals-PrintsPlain : PrintsPlain naturals
naturals-PrintsPlain = record {
  fixed_plain = λ n a. record { plain = all_digits-IsPlain (decimal a) (all_digits-decimal a) };
}

bare_view-HasPlainNames : HasPlainNames naturals (diagnosis_input naturals bare_view)
unfolding diagnosis_input is_plain
bare_view-HasPlainNames = record {
  cpu_name = record { plain = refl };
  memory_name = record { plain = refl };
}

abbrev redirected : Environment
redirected = record { stdout_tty = false; stdin_tty = true; no_color = false; sources = bare }

main_once_example :
    ((view : Overview naturals) × (main naturals sorts (codes "--once" ∷ []) redirected
        ≡ ends (render_compact naturals false view) [] 0)
      × IsPlain (render_compact naturals false view)
      × (required naturals bare.meminfo bare.root bare.cpu_before true bare.cpu_after
          ≡ some (numbers_of naturals view))
      × IsConsistent naturals (numbers_of naturals view))
    ⊎ ((required naturals bare.meminfo bare.root bare.cpu_before true bare.cpu_after ≡ none)
        × (main naturals sorts (codes "--once" ∷ []) redirected ≡ ends [] no_data_message 1))
main_once_example = main_once naturals sorts redirected refl naturals-PrintsPlain (λ view h.
    subst (λ (v : Overview naturals). HasPlainNames naturals (diagnosis_input naturals v))
      (some-injective bare_view view (sym collected ∙ h)) bare_view-HasPlainNames)

-- The same machine with a process, which uses no time while it is sampled.
abbrev busy : Sources
busy = record bare { fs_before = small_proc; fs_list = small_proc; fs_after = small_proc }

abbrev by_pid : Sorts naturals
by_pid = record { counters = sort; infos = sort }

abbrev row_7 : ProcessRow naturals
row_7 = record {
  pid = 7;
  name = codes "sh";
  state = b'S';
  threads = 1;
  rss_kib = 512;
  starttime = 900;
  cpu_percent = 0;
}

rows_sampled : sample_process_rows naturals by_pid busy ≡ some (row_7 ∷ [])
unfolding sample_process_rows sample_infos sample_cpu take_snapshot fill_row search search_loop
    process_list_read process_cpu_snapshot_take process_cpu_all_since read_info read_counter
    read_row_entry find_previous share collect offer push make_room allocate read_process_stat
    read_starttime cpu_parse_line cpu_read delta cpu_deltas cpu_total_delta read_row row_lines
    parse_status_line scan_threads scan_state scan_name conversions first_line lines fgets_loop
    c_string amount open_proc parse_pid str_eq strip_prefix skip_while take_until trim_end is_blank
    is_line_end is_space is_digit decimal digits_below process_cpu_parse_stat parse_stat_pid
    parse_stat_name read_fields read_field store_field is_not_space parse_uint_token strchr strrchr
    insert_each insert compare_counter compare_info_pid compare_number
rows_sampled = refl

sample_process_rows-FillsAll_example :
    (rows : List (ProcessRow naturals)) × (process_list_read naturals busy.list_alloc busy.fs_list
      ≡ some rows)
    × (((sample_infos naturals by_pid busy ≡ none) × (row_7 ∷ [] ≡ rows))
        ⊎ ((items : List (ProcessCpuInfo naturals)) × (sample_infos naturals by_pid busy
              ≡ some items)
            × FillsAll naturals items rows (row_7 ∷ [])))
sample_process_rows-FillsAll_example =
    sample_process_rows-FillsAll naturals by_pid sort-IsQsort busy rows_sampled
