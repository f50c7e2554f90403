-- ===== src/Examples/Processes.antt =====
-- The process readers, their tables, the search and the signal.
use rookietop.Common.{
  ℕ, zero, suc, ◌≤◌, ◌≡◌, ◌↔◌, refl, true, List, [], ◌∷◌, some, arith, length, take,
}
use rookietop.Libc.Chars.{
  Bytes, codes, is_digit, strip_prefix, trim_end, skip_while, is_blank, is_line_end, is_space,
  c_string, str_eq, take_until,
}
use rookietop.Libc.Numbers.{scan_amount, scan_u64, strtoull, signed, number, take_sign, take_word}
use rookietop.Libc.Decimal.{read_digits}
use rookietop.Reading.{amount}
use rookietop.ProcessCpu.Parse.Token.{is_word}
use rookietop.Libc.Files.{File, lines, fgets_loop}
use rookietop.Libc.Sort.{IsAscending}
use rookietop.Top.Insert.{Best}
use rookietop.Search.{search}
use rookietop.Search.Correct.{search-Decides, Decides}
use rookietop.Process.{
  ProcessInfo, status_lines, status_line, parse_name, parse_rss, process_top_memory,
  process_parse_status, rss_ge, Found,
}
use rookietop.Process.Memory.{process_top_memory-Best, readable}
use rookietop.ProcessCpu.Parse.{ProcessCpuStat, process_cpu_parse_stat}
use rookietop.ProcessCpu.Parse.RoundTrip.{
  unclosed, StatLine, IsStatLine, stat_line, process_cpu_parse_stat-stat_line,
}
use rookietop.ProcessCpu.Snapshot.{ProcessCpuCounter, counter_pid}
use rookietop.ProcessCpu.Since.{find_previous, share}
use rookietop.ProcessCpu.Since.Shares.{share-IsOnly, IsOnly}
use rookietop.Query.{contains_case_insensitive, process_query_filter, row_matches}
use rookietop.Query.Contains.{contains_case_insensitive_iff, Occurs}
use rookietop.Query.Filter.{process_query_filter-matching, matching}
use rookietop.ProcessList.{ProcessRow}
use rookietop.Examples.Data.{naturals, good_file, listing, small_proc, counter_7, counter_9}

abbrev no_process : ProcessInfo
no_process = record { pid = 0; name = []; rss_kib = 0 }

process_top_memory-Best_example :
    (r : Found) × (process_top_memory small_proc (no_process ∷ no_process ∷ []) 2 ≡ some r)
    × Best rss_ge 2 (readable small_proc listing.entries) r.top
    × (r.total ≡ length (readable small_proc listing.entries))
process_top_memory-Best_example =
    process_top_memory-Best small_proc listing (no_process ∷ no_process ∷ []) 2 refl refl refl
      (omega arith) refl

abbrev status_file : File
status_file = good_file "Name:\tsh\nVmRSS:\t512 kB\n"

abbrev shell : ProcessInfo
shell = record { pid = 7; name = codes "sh"; rss_kib = 512 }

status_parses : process_parse_status status_file 7 ≡ some shell
unfolding process_parse_status status_lines lines status_line parse_name strip_prefix trim_end
    skip_while is_blank is_line_end is_space parse_rss amount scan_amount scan_u64 strtoull signed
    number c_string is_digit str_eq take_until read_digits fgets_loop take_sign take_word
status_parses = refl

abbrev field : Bytes
field = codes "0"

-- A process whose name has parentheses and a space.
abbrev odd_line : StatLine
odd_line = record {
  pid = 42;
  name = codes "a) S (b";
  before =
      codes "S"
      ∷ field
      ∷ field
      ∷ field
      ∷ field
      ∷ field
      ∷ field
      ∷ field
      ∷ field
      ∷ field
      ∷ field
      ∷ [];
  utime = 30;
  stime = 12;
  middle = field ∷ field ∷ field ∷ field ∷ field ∷ field ∷ [];
  starttime = 900;
  rest = codes " 0 0\n";
}

odd_line-IsStatLine : IsStatLine odd_line
unfolding is_word is_space unclosed
odd_line-IsStatLine = record {
  positive = omega arith;
  small = omega arith;
  named = omega arith;
  name_fits = omega arith;
  before_count = refl;
  before_fields = ground arith;
  middle_count = refl;
  middle_fields = ground arith;
  starttime_fits = omega arith;
  ticks_fit = omega arith;
  rest_ends = refl;
  rest_unclosed = refl;
}

process_cpu_parse_stat-stat_line_example :
    process_cpu_parse_stat (stat_line odd_line)
    ≡ some (record { pid = 42; name = codes "a) S (b"; ticks = 42; starttime = 900 })
process_cpu_parse_stat-stat_line_example =
    process_cpu_parse_stat-stat_line odd_line odd_line-IsStatLine

abbrev snapshot : List ProcessCpuCounter
snapshot = counter_7 ∷ counter_9 ∷ []

snapshot-IsAscending : IsAscending counter_pid snapshot
snapshot-IsAscending = ground arith

search-Decides_example : Decides counter_pid snapshot 9 (search counter_pid snapshot 9)
search-Decides_example = search-Decides counter_pid snapshot 9 snapshot-IsAscending

abbrev stat_7 : ProcessCpuStat
stat_7 = record { pid = 7; name = codes "sh"; ticks = 42; starttime = 900 }

counter_7-IsOnly : IsOnly snapshot counter_7
counter_7-IsOnly zero x cell same = ground arith
counter_7-IsOnly (suc zero) x cell same = absurd (ground arith)
counter_7-IsOnly (suc (suc i)) x cell same = cc

share-IsOnly_example : share naturals (find_previous snapshot 7) stat_7 10 ≡ 20
share-IsOnly_example =
    share-IsOnly naturals snapshot snapshot-IsAscending 0 counter_7 stat_7 10 refl counter_7-IsOnly

contains_case_insensitive_iff_example :
    (contains_case_insensitive (codes "Firefox") (codes "FOX") ≡ true)
    ↔ Occurs (codes "Firefox") (codes "FOX")
contains_case_insensitive_iff_example =
    contains_case_insensitive_iff (codes "Firefox") (codes "FOX")

abbrev row_named : ℕ → Bytes → ProcessRow naturals
row_named pid name = record {
  pid = pid;
  name = name;
  state = b'S';
  threads = 1;
  rss_kib = 8;
  starttime = 3;
  cpu_percent = 0;
}

abbrev three_rows : List (ProcessRow naturals)
three_rows = row_named 5 (codes "sh") ∷ row_named 6 (codes "vim") ∷ row_named 7 (codes "bash") ∷ []

process_query_filter-matching_example :
    let c = process_query_filter naturals three_rows 3 (codes "SH") in
    (take c.write c.rows ≡ matching (row_matches naturals (codes "SH")) three_rows) × (c.write ≤ 3)
process_query_filter-matching_example =
    process_query_filter-matching naturals three_rows (codes "SH")
