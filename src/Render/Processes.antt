-- ===== src/Render/Processes.antt =====
-- render_processes of src/main.c: the process list.
use rookietop.Common.{
  ℕ, ◌-◌, ◌==◌, Bool, true, false, List, [], ◌∷◌, ◌++◌, Option, none, some, if◌then◌else◌, length,
  take, get_elem?,
}
use rookietop.Libc.Chars.{Bytes, codes}
use rookietop.Libc.Decimal.{decimal}
use rookietop.Libc.Int.{ℤ, pos, pos_part, ◌+ℤ◌, ◌-ℤ◌, at_least_ℤ, at_most_ℤ}
use rookietop.Libc.Float.{Float}
use rookietop.Libc.Format.{printed, pad_left, pad_right}
use rookietop.Diagnosis.{in_units, kib_per_mib}
use rookietop.Teaching.{teaching_state_name, teaching_state_explanation}
use rookietop.ProcessList.{ProcessRow}
use rookietop.App.State.{AppState, ProcessSort, sort_memory, sort_cpu, sort_pid, sort_name}
use rookietop.Render.{
  ansi, ansi_reset, ansi_bold, ansi_dim, ansi_green, ansi_yellow, ansi_cyan, ansi_reverse,
  clear_screen, move_to, print_rule, print_key, coloured,
}
use rookietop.Render.Window.{Drawn, table_row, about_row, drawn_rows}
pub mod Marked

-- sort_name of the source, where that name is also a constructor's.
unfoldable pub sort_text : ProcessSort → Bytes
sort_text sort_cpu = codes "CPU"
sort_text sort_pid = codes "PID"
sort_text sort_name = codes "name"
sort_text sort_memory = codes "memory"

abbrev pub has_text : Bytes → Bool
has_text [] = false
has_text (c ∷ cs) = true

-- The column of the names.
unfoldable pub name_width : ℕ → ℕ
name_width term_cols = pos_part (at_most_ℤ (pos 65) (at_least_ℤ (pos 12) (pos term_cols -ℤ pos 55)))

abbrev pub left_column : ℤ
left_column = pos 2

module _ (f : Float) where
  open f use {Double, literal, lt, fixed}

  unfoldable pub format_process_cpu : Double → ℕ → Bytes
  format_process_cpu cpu_percent cap =
      take (cap - 1)
        (if lt cpu_percent (literal 0 1) then codes "--" else fixed 1 cpu_percent ++ codes "%")

  -- "%-8d %7s %8.1f MiB %13.13s %5lu %-*.*s"
  unfoldable pub row_columns : ℕ → ProcessRow f → Bytes
  row_columns term_cols row = printed (
      pad_right 8 (decimal row.pid)
      ∷ codes " "
      ∷ pad_left 7 (format_process_cpu row.cpu_percent 16)
      ∷ codes " "
      ∷ pad_left 8 (in_units f row.rss_kib kib_per_mib)
      ∷ codes " MiB "
      ∷ pad_left 13 (take 13 (teaching_state_name row.state))
      ∷ codes " "
      ∷ pad_left 5 (decimal row.threads)
      ∷ codes " "
      ∷ pad_right (name_width term_cols) (take (name_width term_cols) row.name)
      ∷ [])

  module _ (use_color : Bool) where
    -- One row of the table: the selected one is marked and reversed.
    unfoldable pub draw_row : ℕ → ℕ → Drawn (ProcessRow f) → Bytes
    draw_row term_cols selected d =
        move_to (pos d.line) left_column
        ++ (if d.index == selected
            then printed (
                ansi use_color ansi_reverse
                ∷ codes "> "
                ∷ row_columns term_cols d.item
                ∷ ansi use_color ansi_reset
                ∷ [])
            else codes "  " ++ row_columns term_cols d.item)

    unfoldable pub draw_all : ℕ → ℕ → List (Drawn (ProcessRow f)) → Bytes
    draw_all term_cols selected [] = []
    draw_all term_cols selected (d ∷ ds) =
        draw_row term_cols selected d ++ draw_all term_cols selected ds

    -- How many processes there are, and their order.
    unfoldable pub count_line : ℕ → ℕ → AppState f → Bytes
    count_line count total_count state =
        if has_text state.search
        then printed (
            ansi use_color ansi_dim
            ∷ decimal count
            ∷ codes " of "
            ∷ decimal total_count
            ∷ codes " processes match \""
            ∷ state.search
            ∷ codes "\" | sorted by "
            ∷ sort_text state.sort
            ∷ ansi use_color ansi_reset
            ∷ [])
        else printed (
            ansi use_color ansi_dim
            ∷ decimal total_count
            ∷ codes " readable processes | sorted by "
            ∷ sort_text state.sort
            ∷ ansi use_color ansi_reset
            ∷ [])

    -- What stands in the table when there is no row.
    unfoldable pub empty_line : AppState f → Bytes
    empty_line state =
        move_to (pos table_row) left_column
        ++ (if has_text state.search
            then printed (
                codes "No process matches \""
                ∷ state.search
                ∷ codes "\". Press / to change or clear the search."
                ∷ [])
            else codes "No readable processes in this sample.")

    -- The selected process in words.
    unfoldable pub about_lines : ℤ → ProcessRow f → Bytes
    about_lines about row = printed (
        move_to (about +ℤ pos 2) left_column
        ∷ row.name
        ∷ codes "  PID "
        ∷ decimal row.pid
        ∷ codes "  |  CPU "
        ∷ format_process_cpu row.cpu_percent 16
        ∷ codes "  |  "
        ∷ in_units f row.rss_kib kib_per_mib
        ∷ codes " MiB  |  "
        ∷ teaching_state_name row.state
        ∷ codes "  |  "
        ∷ decimal row.threads
        ∷ codes " thread"
        ∷ (if row.threads == 1 then codes "" else codes "s")
        ∷ move_to (about +ℤ pos 3) left_column
        ∷ teaching_state_explanation row.state
        ∷ move_to (about +ℤ pos 4) left_column
        ∷ codes "CPU is this process's share of the whole machine during the latest short sample."
        ∷ [])

    unfoldable pub process_header : ℕ → ℕ → ℕ → AppState f → Bytes
    process_header term_cols count total_count state = printed (
        clear_screen
        ∷ move_to (pos 1) left_column
        ∷ coloured use_color ansi_bold (codes "RookieTop")
        ∷ codes "  "
        ∷ coloured use_color ansi_cyan (codes "PROCESS EXPLORER")
        ∷ move_to (pos 2) left_column
        ∷ codes "Pick a process. Enter opens details; ? explains what the values mean."
        ∷ move_to (pos 3) left_column
        ∷ count_line count total_count state
        ∷ move_to (pos 4) left_column
        ∷ coloured use_color ansi_dim
            (codes "[/] Search   [c] CPU   [m] Memory   [p] PID   [n] Name")
        ∷ move_to (pos 5) left_column
        ∷ print_rule (pos term_cols -ℤ pos 3)
        ∷ move_to (pos 7) left_column
        ∷ codes "  "
        ∷ pad_right 8 (codes "PID")
        ∷ codes " "
        ∷ pad_left 7 (codes "CPU")
        ∷ codes " "
        ∷ pad_left 11 (codes "MEMORY")
        ∷ codes " "
        ∷ pad_left 13 (codes "STATE")
        ∷ codes " "
        ∷ pad_left 5 (codes "THR")
        ∷ codes " "
        ∷ pad_right (name_width term_cols) (codes "NAME")
        ∷ [])

    -- What follows the table. The selected row is there where there are rows.
    unfoldable pub process_footer : ℕ → ℕ → List (ProcessRow f) → AppState f → Bytes
    process_footer term_rows term_cols rows state =
        let about = about_row term_rows in
        let footer = pos term_rows -ℤ pos 2 in
        let rule = print_rule (pos term_cols -ℤ pos 3) in
        printed (
          move_to about left_column
          ∷ rule
          ∷ move_to (about +ℤ pos 1) left_column
          ∷ coloured use_color ansi_cyan (codes "ABOUT THIS PROCESS")
          ∷ elim (get_elem? rows state.selected) [ none ↦ [] | some row ↦ about_lines about row ]
          ∷ (if has_text state.notice
              then move_to (about +ℤ pos 5) left_column
                ++ coloured use_color ansi_yellow state.notice
              else [])
          ∷ move_to footer left_column
          ∷ rule
          ∷ move_to (footer +ℤ pos 1) left_column
          ∷ print_key use_color (codes "Up/Down") (codes "Move") ansi_cyan
          ∷ codes "  "
          ∷ print_key use_color (codes "/") (codes "Search") ansi_cyan
          ∷ codes "  "
          ∷ print_key use_color (codes "Enter") (codes "Details") ansi_green
          ∷ codes "  "
          ∷ print_key use_color (codes "?") (codes "Explain") ansi_cyan
          ∷ codes "  "
          ∷ print_key use_color (codes "k") (codes "Stop") ansi_green
          ∷ codes "  "
          ∷ coloured use_color ansi_dim (codes "[Esc] Back  [q] Quit")
          ∷ [])

    unfoldable pub render_processes : ℕ → ℕ → List (ProcessRow f) → ℕ → AppState f → Bytes
    render_processes term_rows term_cols rows total_count state =
        process_header term_cols (length rows) total_count state
        ++ (draw_all term_cols state.selected (drawn_rows term_rows state.selected rows)
            ++ ((if length rows == 0 then empty_line state else [])
                ++ process_footer term_rows term_cols rows state))
