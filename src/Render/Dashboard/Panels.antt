-- ===== src/Render/Dashboard/Panels.antt =====
-- render_overview of src/main.c: the panels of the dashboard above its activity.
use rookietop.Common.{
  ℕ, zero, suc, ◌+◌, ◌*◌, ◌/◌, ◌==◌, ◌&&◌, ltb, Bool, [], ◌∷◌, ◌++◌, none, some, if◌then◌else◌,
  length, take, get_elem?,
}
use rookietop.Libc.Chars.{Bytes, codes}
use rookietop.Libc.Decimal.{decimal}
use rookietop.Libc.Int.{pos, pos_part, ◌-ℤ◌, at_least_ℤ}
use rookietop.Libc.Float.{Float}
use rookietop.Libc.Format.{printed, pad_left, pad_right}
use rookietop.Diagnosis.{in_units, kib_per_mib, kib_per_gib, bytes_per_gib}
use rookietop.Overview.{Overview, overall_status}
use rookietop.Render.{
  ansi_bold, ansi_dim, ansi_cyan, clear_screen, move_to, print_rule, print_section, coloured,
}
use rookietop.Render.Meters.{
  cpu_status, memory_status, disk_status, load_status, metric_color, overall_color, status_text,
  print_metric, format_uptime,
}
use rookietop.Render.Compact.{rookietop_version, mib_per_sec}

-- `split`, `right`, `bar_width` and `graph_width`
abbrev pub split_column : ℕ → ℕ
split_column term_cols = term_cols * 3 / 5

abbrev pub right_column : ℕ → ℕ
right_column term_cols = split_column term_cols + 2

unfoldable pub overview_bar_width : ℕ → ℕ
overview_bar_width term_cols =
    pos_part (at_least_ℤ (pos 14) (pos (split_column term_cols) -ℤ pos 29))

module _ (f : Float) (use_color : Bool) where
  open f use {Double, fixed}

  -- move_to, and what is printed there.
  abbrev pub place : ℕ → ℕ → Bytes → Bytes
  place row col text = move_to (pos row) (pos col) ++ text

  unfoldable pub host_line : Overview f → Bytes
  host_line view =
      let host = view.host in
      if view.host_ok
      then coloured use_color ansi_dim (
          printed (
            host.hostname
            ∷ codes " | Linux "
            ∷ host.kernel_release
            ∷ codes " | "
            ∷ decimal host.cores
            ∷ codes " CPU | up "
            ∷ format_uptime f host.uptime_seconds 32
            ∷ codes " | load "
            ∷ fixed 2 host.load1
            ∷ codes " "
            ∷ fixed 2 host.load5
            ∷ codes " "
            ∷ fixed 2 host.load15
            ∷ []))
      else []

  unfoldable pub overview_header : ℕ → Overview f → Bytes
  overview_header term_cols view =
      let health = status_text (overall_status f view) in
      printed (
        clear_screen
        ∷ place 1 2 (
            printed (
              coloured use_color ansi_bold (codes "RookieTop")
              ∷ codes "  "
              ∷ coloured use_color ansi_dim rookietop_version
              ∷ codes "  "
              ∷ coloured use_color ansi_cyan (codes "YOUR LINUX, EXPLAINED")
              ∷ []))
        ∷ move_to (pos 1) (pos term_cols -ℤ pos (length health) -ℤ pos 1)
        ∷ coloured use_color (overall_color f view) health
        ∷ place 2 2 (host_line view)
        ∷ place 3 2 (print_rule (pos term_cols -ℤ pos 3))
        ∷ [])

  unfoldable pub system_part : ℕ → Overview f → Bytes
  system_part term_cols view =
      let bar_width = overview_bar_width term_cols in
      printed (
        place 5 2 (print_section use_color (codes "SYSTEM"))
        ∷ place 6 2 (
            print_metric f use_color (codes "CPU") view.cpu_percent (cpu_status f view.cpu_percent)
              (metric_color f view.cpu_percent 70 95) bar_width)
        ∷ place 7 2 (
            print_metric f use_color (codes "Memory") view.memory_percent
              (memory_status f view.memory_percent) (metric_color f view.memory_percent 80 95)
              bar_width)
        ∷ place 8 2 (
            print_metric f use_color (codes "Disk") view.disk_percent
              (disk_status f view.disk_percent) (metric_color f view.disk_percent 85 95) bar_width)
        ∷ [])

  -- "%.1f / %.1f GiB   %.1f GiB available"
  unfoldable pub amounts : ℕ → ℕ → ℕ → ℕ → Bytes
  amounts used total available unit = printed (
      in_units f used unit
      ∷ codes " / "
      ∷ in_units f total unit
      ∷ codes " GiB   "
      ∷ in_units f available unit
      ∷ codes " GiB available"
      ∷ [])

  unfoldable pub right_now_part : ℕ → Overview f → Bytes
  right_now_part term_cols view =
      let right = right_column term_cols in
      printed (
        place 5 right (print_section use_color (codes "RIGHT NOW"))
        ∷ place 6 right (
            codes "RAM      "
            ++ amounts view.memory_used_kib view.memory.total_kib view.memory.available_kib
                kib_per_gib)
        ∷ place 7 right (
            codes "Root     "
            ++ amounts view.disk_used_bytes view.disk.total_bytes view.disk.available_bytes
                bytes_per_gib)
        ∷ place 8 right (
            if view.network_ok
            then printed (
                codes "Network  down "
                ∷ mib_per_sec f view.rx_per_sec
                ∷ codes " MiB/s   up "
                ∷ mib_per_sec f view.tx_per_sec
                ∷ codes " MiB/s"
                ∷ [])
            else codes "Network  unavailable this sample")
        ∷ place 9 right (
            if view.host_ok
            then printed (
                codes "Load     "
                ∷ fixed 2 view.host.load1
                ∷ codes " / "
                ∷ decimal view.host.cores
                ∷ codes " CPU   "
                ∷ load_status f view
                ∷ [])
            else [])
        ∷ place 10 right (
            if view.host_ok && view.host.thermal_ok
            then printed (
                codes "Thermal  "
                ∷ fixed 1 view.host.thermal_c
                ∷ codes " C   "
                ∷ view.host.thermal_type
                ∷ [])
            else coloured use_color ansi_dim (codes "Thermal  not exposed by this system"))
        ∷ [])

  -- "%-22.22s %6.2f%%  pid %-7d"
  unfoldable pub cpu_cell : Overview f → ℕ → Bytes
  cpu_cell view i =
      let found =
        if view.cpu_process_ok && ltb i view.cpu_process_count
        then get_elem? view.cpu_top i
        else none in
      elim found [
        | some info ↦ printed (
            pad_right 22 (take 22 info.name)
            ∷ codes " "
            ∷ pad_left 6 (fixed 2 info.cpu_percent)
            ∷ codes "%  pid "
            ∷ pad_right 7 (decimal info.pid)
            ∷ [])
        | none ↦
            if i == 0
            then coloured use_color ansi_dim (codes "No process stood out in this short sample.")
            else []
      ]

  -- "%-22.22s %7.1f MiB  pid %-7d"
  unfoldable pub memory_cell : Overview f → ℕ → Bytes
  memory_cell view i =
      let found =
        if view.memory_process_ok && ltb i view.memory_process_count
        then get_elem? view.memory_top i
        else none in
      elim found [
        | some info ↦ printed (
            pad_right 22 (take 22 info.name)
            ∷ codes " "
            ∷ pad_left 7 (in_units f info.rss_kib kib_per_mib)
            ∷ codes " MiB  pid "
            ∷ pad_right 7 (decimal info.pid)
            ∷ [])
        | none ↦ []
      ]

  -- The rounds that are left, from the index `i`, in the lines from 15 on.
  unfoldable pub process_lines : ℕ → ℕ → ℕ → Overview f → Bytes
  process_lines zero i right view = []
  process_lines (suc left) i right view = printed (
      place (15 + i) 2 (cpu_cell view i)
      ∷ place (15 + i) right (memory_cell view i)
      ∷ process_lines left (suc i) right view
      ∷ [])
