-- ===== src/Render/Dashboard.antt =====
-- render_overview of src/main.c: the dashboard.
use rookietop.Common.{
  ◌&&◌, ℕ, zero, suc, ◌+◌, ◌-◌, ◌*◌, ◌/◌, ◌==◌, ◌&&◌, ltb, leb, Bool, true, false, List, [], ◌∷◌,
  ◌++◌, Option, none, some, if◌then◌else◌, length, take, get_elem?,
}
use rookietop.Libc.Chars.{Bytes, codes}
use rookietop.Libc.Decimal.{decimal}
use rookietop.Libc.Int.{ℤ, pos, pos_part, ltb_ℤ, ◌+ℤ◌, ◌-ℤ◌, at_least_ℤ, at_most_ℤ}
use rookietop.Libc.Float.{Float}
use rookietop.Libc.Format.{printed, pad_left, pad_right, take_precision}
use rookietop.Diagnosis.{
  DiagnosisFocus, healthy, disk, memory, cpu, load, in_units, kib_per_mib, kib_per_gib,
  bytes_per_gib,
}
use rookietop.Process.{ProcessInfo}
use rookietop.ProcessCpu.Since.{ProcessCpuInfo}
use rookietop.Overview.{Overview, overall_status, build_view_diagnosis}
use rookietop.App.History.{MetricHistory, history_max}
use rookietop.Render.{
  ansi_bold, ansi_dim, ansi_green, ansi_cyan, clear_screen, move_to, print_rule, print_key,
  print_section, coloured,
}
use rookietop.Render.Meters.{
  cpu_status, memory_status, disk_status, load_status, metric_color, overall_color, status_text,
  diagnosis_color, print_metric, print_history, format_uptime,
}
use rookietop.Render.Compact.{rookietop_version, mib_per_sec}
use rookietop.Render.Compact.{render_compact}
use rookietop.Render.Dashboard.Panels.{
  split_column, right_column, place, overview_header, system_part, right_now_part, process_lines,
}
pub mod Panels
pub mod Columns

unfoldable pub graph_width : ℕ → ℕ
graph_width term_cols =
    pos_part (at_least_ℤ (pos 20) (at_most_ℤ (pos history_max) (pos term_cols -ℤ pos 3 -ℤ pos 12)))

-- `process_rows`
abbrev pub process_rows : ℕ → ℕ
process_rows term_rows = if leb 40 term_rows then 6 else 4

module _ (f : Float) (use_color : Bool) where
  open f use {Double, fixed}

  unfoldable pub activity_part : ℕ → ℕ → Overview f → MetricHistory Double → Bytes
  activity_part term_rows term_cols view history =
      let row = 17 + process_rows term_rows in
      let width = graph_width term_cols in
      let values = λ (cells : List Double). take history.count cells in
      if ltb_ℤ (pos (row + 2)) (pos term_rows -ℤ pos 8)
      then printed (
          place f use_color row 2 (print_section use_color (codes "RECENT ACTIVITY"))
          ∷ codes "  "
          ∷ coloured use_color ansi_dim
              (printed (codes "~" ∷ decimal history.count ∷ codes " samples" ∷ []))
          ∷ place f use_color (row + 1) 2 (
              print_history f use_color (codes "CPU") (values history.cpu) width
                (metric_color f view.cpu_percent 70 95))
          ∷ place f use_color (row + 2) 2 (
              print_history f use_color (codes "Memory") (values history.memory) width
                (metric_color f view.memory_percent 80 95))
          ∷ [])
      else []

  abbrev is_healthy : DiagnosisFocus → Bool
  is_healthy healthy = true
  is_healthy _ = false

  unfoldable pub notices_part : ℕ → ℕ → Overview f → Bytes
  notices_part term_rows term_cols view =
      let d = build_view_diagnosis f view in
      let teaching_row = pos term_rows -ℤ pos 8 in
      printed (
        move_to teaching_row (pos 2)
        ∷ coloured use_color ansi_cyan (codes "WHAT ROOKIETOP NOTICES")
        ∷ move_to (teaching_row +ℤ pos 1) (pos 2)
        ∷ coloured use_color (diagnosis_color d.focus) d.headline
        ∷ move_to (teaching_row +ℤ pos 2) (pos 2)
        ∷ take_precision (pos term_cols -ℤ pos 3) d.detail
        ∷ move_to (teaching_row +ℤ pos 3) (pos 2)
        ∷ (if is_healthy d.focus
            then printed (
                codes "Curious about a number? Press "
                ∷ coloured use_color ansi_bold (codes "?")
                ∷ codes " to see how Linux produces it and try it yourself."
                ∷ [])
            else printed (
                codes "Want the deeper reason? Press "
                ∷ coloured use_color ansi_bold (codes "?")
                ∷ codes "; RookieTop will start with the most relevant concept."
                ∷ []))
        ∷ [])

  unfoldable pub render_overview : ℕ → ℕ → Overview f → MetricHistory Double → Bytes
  render_overview term_rows term_cols view history =
      let right = right_column term_cols in
      let footer_row = pos term_rows -ℤ pos 2 in
      let rule = print_rule (pos term_cols -ℤ pos 3) in
      printed (
        overview_header f use_color term_cols view
        ∷ system_part f use_color term_cols view
        ∷ right_now_part f use_color term_cols view
        ∷ place f use_color 12 2 rule
        ∷ place f use_color 14 2 (coloured use_color ansi_bold (codes "BUSIEST CPU"))
        ∷ place f use_color 14 right (coloured use_color ansi_bold (codes "BIGGEST MEMORY USERS"))
        ∷ process_lines f use_color (process_rows term_rows) 0 right view
        ∷ activity_part term_rows term_cols view history
        ∷ notices_part term_rows term_cols view
        ∷ move_to footer_row (pos 2)
        ∷ rule
        ∷ move_to (footer_row +ℤ pos 1) (pos 2)
        ∷ print_key use_color (codes "?") (codes "Explain") ansi_cyan
        ∷ codes "   "
        ∷ print_key use_color (codes "p") (codes "Processes") ansi_green
        ∷ codes "   "
        ∷ print_key use_color (codes "q") (codes "Quit") ansi_dim
        ∷ [])

  -- MIN_FULL_COLS and MIN_FULL_ROWS
  abbrev is_full_size : ℕ → ℕ → Bool
  is_full_size term_rows term_cols = leb 100 term_cols && leb 32 term_rows

  -- What the overview screen draws.
  unfoldable pub overview_screen : ℕ → ℕ → Overview f → MetricHistory Double → Bytes
  overview_screen term_rows term_cols view history =
      if is_full_size term_rows term_cols
      then render_overview term_rows term_cols view history
      else printed (
          clear_screen
          ∷ render_compact f use_color view
          ∷ codes "\nResize to at least 100x32 for the full interactive layout.\n"
          ∷ [])
