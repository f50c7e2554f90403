-- ===== src/Render/Details.antt =====
-- The screens of src/main.c for one process, and for the search: render_process_search,
-- render_process_detail, render_process_learning and render_confirm.
use rookietop.Common.{ℕ, Bool, List, [], ◌∷◌, if◌then◌else◌}
use rookietop.Libc.Chars.{Bytes, codes}
use rookietop.Libc.Decimal.{decimal}
use rookietop.Libc.Int.{ℤ, pos, ◌+ℤ◌, ◌-ℤ◌}
use rookietop.Libc.Float.{Float}
use rookietop.Libc.Format.{printed, take_precision}
use rookietop.Diagnosis.{in_units, kib_per_mib}
use rookietop.Teaching.{teaching_state_name, teaching_state_explanation}
use rookietop.ProcessList.{ProcessDetail}
use rookietop.App.State.{AppState}
use rookietop.Render.{
  ansi_bold, ansi_dim, ansi_green, ansi_red, ansi_cyan, clear_screen, move_to, print_rule,
  print_key, print_section, coloured,
}
pub mod Signal

module _ (f : Float) (use_color : Bool) where
  -- The lines at the bottom of the screen start here.
  abbrev footer_row : ℕ → ℤ
  footer_row term_rows = pos term_rows -ℤ pos 2

  unfoldable pub render_process_search : ℕ → ℕ → AppState f → Bytes
  render_process_search term_rows term_cols state =
      let left = pos 4 in
      let rule = print_rule (pos term_cols -ℤ pos 7) in
      printed (
        clear_screen
        ∷ move_to (pos 1) left
        ∷ coloured use_color ansi_cyan (codes "SEARCH PROCESSES")
        ∷ move_to (pos 2) left
        ∷ codes "Type part of a process name or PID. Search is case-insensitive."
        ∷ move_to (pos 3) left
        ∷ rule
        ∷ move_to (pos 6) left
        ∷ codes "Search: "
        ∷ coloured use_color ansi_bold (printed (state.search_draft ∷ codes "_" ∷ []))
        ∷ move_to (pos 9) left
        ∷ codes "Examples: nginx   maria   cloud   1425"
        ∷ move_to (pos 11) left
        ∷ codes "Leave the search empty and press Enter to show every process again."
        ∷ move_to (footer_row term_rows) left
        ∷ rule
        ∷ move_to (footer_row term_rows +ℤ pos 1) left
        ∷ print_key use_color (codes "Enter") (codes "Apply") ansi_green
        ∷ codes "   "
        ∷ coloured use_color ansi_dim (codes "[Backspace] Delete   [Esc] Cancel")
        ∷ [])

  unfoldable pub render_process_detail : ℕ → ℕ → ProcessDetail f → Bytes
  render_process_detail term_rows term_cols detail =
      let left = pos 3 in
      let width = pos term_cols -ℤ pos 5 in
      printed (
        clear_screen
        ∷ move_to (pos 1) left
        ∷ coloured use_color ansi_bold (codes "ABOUT")
        ∷ codes "  "
        ∷ coloured use_color ansi_cyan detail.row.name
        ∷ move_to (pos 2) left
        ∷ coloured use_color ansi_dim (
            codes
              "A closer look at one running process. Press ? when you want the Linux internals.")
        ∷ move_to (pos 3) left
        ∷ print_rule width
        ∷ move_to (pos 5) left
        ∷ codes "PID        "
        ∷ decimal detail.row.pid
        ∷ move_to (pos 6) left
        ∷ codes "State      "
        ∷ teaching_state_name detail.row.state
        ∷ move_to (pos 7) left
        ∷ codes "Memory     "
        ∷ in_units f detail.row.rss_kib kib_per_mib
        ∷ codes " MiB"
        ∷ move_to (pos 8) left
        ∷ codes "Threads    "
        ∷ decimal detail.row.threads
        ∷ move_to (pos 10) left
        ∷ print_section use_color (codes "COMMAND")
        ∷ move_to (pos 11) left
        ∷ take_precision width detail.command
        ∷ move_to (pos 14) left
        ∷ coloured use_color ansi_cyan (codes "WHAT THIS TELLS YOU")
        ∷ move_to (pos 15) left
        ∷ teaching_state_explanation detail.row.state
        ∷ move_to (pos 17) left
        ∷ codes "Curious where PID, memory, state, and threads come from? Press "
        ∷ coloured use_color ansi_bold (codes "?")
        ∷ codes "."
        ∷ move_to (footer_row term_rows) left
        ∷ print_rule width
        ∷ move_to (footer_row term_rows +ℤ pos 1) left
        ∷ print_key use_color (codes "?") (codes "Explain") ansi_cyan
        ∷ codes "   "
        ∷ print_key use_color (codes "k") (codes "Stop safely") ansi_green
        ∷ codes "   "
        ∷ print_key use_color (codes "K") (codes "Force kill") ansi_red
        ∷ codes "   "
        ∷ coloured use_color ansi_dim (codes "[Esc] Back  [q] Quit")
        ∷ [])

  unfoldable pub render_process_learning : ℕ → ℕ → ProcessDetail f → Bytes
  render_process_learning term_rows term_cols detail =
      let left = pos 4 in
      let rule = print_rule (pos term_cols -ℤ pos 7) in
      let pid = decimal detail.row.pid in
      printed (
        clear_screen
        ∷ move_to (pos 1) left
        ∷ coloured use_color ansi_cyan (codes "HOW LINUX SEES")
        ∷ codes "  "
        ∷ coloured use_color ansi_bold detail.row.name
        ∷ move_to (pos 2) left
        ∷ codes "This explanation uses the process that is running on your machine right now."
        ∷ move_to (pos 3) left
        ∷ rule
        ∷ move_to (pos 5) left
        ∷ coloured use_color ansi_cyan (codes "THE IDEA")
        ∷ move_to (pos 6) left
        ∷ codes
            "A process is one running instance of a program. Linux currently knows this one as PID "
        ∷ pid
        ∷ codes "."
        ∷ move_to (pos 7) left
        ∷ codes
            "That PID can be reused later, so RookieTop also remembers when this process started before sending signals."
        ∷ move_to (pos 10) left
        ∷ coloured use_color ansi_cyan (codes "RIGHT NOW")
        ∷ move_to (pos 11) left
        ∷ codes "State: "
        ∷ teaching_state_name detail.row.state
        ∷ codes ". "
        ∷ teaching_state_explanation detail.row.state
        ∷ move_to (pos 12) left
        ∷ codes "Memory: "
        ∷ in_units f detail.row.rss_kib kib_per_mib
        ∷ codes " MiB in physical RAM | Threads: "
        ∷ decimal detail.row.threads
        ∷ move_to (pos 15) left
        ∷ coloured use_color ansi_cyan (codes "WHERE IT COMES FROM")
        ∷ move_to (pos 16) left
        ∷ codes "/proc/"
        ∷ pid
        ∷ codes "/status   memory, threads, and readable state"
        ∷ move_to (pos 17) left
        ∷ codes "/proc/"
        ∷ pid
        ∷ codes "/stat     CPU accounting, state, and process start time"
        ∷ move_to (pos 18) left
        ∷ codes "/proc/"
        ∷ pid
        ∷ codes "/cmdline  command and arguments"
        ∷ move_to (pos 21) left
        ∷ coloured use_color ansi_cyan (codes "TRY IT")
        ∷ move_to (pos 22) left
        ∷ codes "Run:  cat /proc/"
        ∷ pid
        ∷ codes "/status"
        ∷ move_to (pos 23) left
        ∷ codes "Look for State, Threads, and VmRSS, then compare them with RookieTop."
        ∷ move_to (footer_row term_rows) left
        ∷ rule
        ∷ move_to (footer_row term_rows +ℤ pos 1) left
        ∷ print_key use_color (codes "k") (codes "Stop safely") ansi_green
        ∷ codes "   "
        ∷ print_key use_color (codes "K") (codes "Force kill") ansi_red
        ∷ codes "   "
        ∷ coloured use_color ansi_dim (codes "[Esc] Back  [q] Quit")
        ∷ [])

  -- "Linux signal: …"
  abbrev pub signal_line : Bool → Bytes
  signal_line force = if force then codes "Linux signal: SIGKILL" else codes "Linux signal: SIGTERM"

  -- The explanation of a confirmation.
  unfoldable pub confirm_text : Bool → Bytes
  confirm_text force =
      let left = pos 4 in
      if force
      then printed (
          move_to (pos 5) left
          ∷ codes
              "This ends the process immediately. It does not get a chance to save state or clean up first."
          ∷ move_to (pos 7) left
          ∷ coloured use_color ansi_red
              (codes "Use Force Kill only when a normal stop did not work.")
          ∷ [])
      else printed (
          move_to (pos 5) left
          ∷ codes "RookieTop will ask this process to exit cleanly."
          ∷ move_to (pos 7) left
          ∷ codes "It gets a chance to finish work, close files, and clean up before stopping."
          ∷ [])

  unfoldable pub render_confirm : ℕ → ℕ → Bool → ProcessDetail f → Bytes
  render_confirm term_rows term_cols force detail =
      let left = pos 4 in
      let rule = print_rule (pos term_cols -ℤ pos 7) in
      printed (
        clear_screen
        ∷ move_to (pos 1) left
        ∷ (if force
            then coloured use_color ansi_red (codes "FORCE KILL")
            else coloured use_color ansi_green (codes "STOP"))
        ∷ codes "  "
        ∷ detail.row.name
        ∷ codes "?"
        ∷ move_to (pos 2) left
        ∷ rule
        ∷ confirm_text force
        ∷ move_to (pos 10) left
        ∷ signal_line force
        ∷ move_to (pos 12) left
        ∷ coloured use_color ansi_dim
            (codes "RookieTop re-checks PID + start time before sending the signal.")
        ∷ move_to (footer_row term_rows) left
        ∷ rule
        ∷ move_to (footer_row term_rows +ℤ pos 1) left
        ∷ print_key use_color (codes "y") (if force then codes "Force kill" else codes "Stop it")
            (if force then ansi_red else ansi_green)
        ∷ codes "   "
        ∷ coloured use_color ansi_dim (
            printed (
              codes "[n/Esc] "
              ∷ (if force then codes "Cancel" else codes "Keep running")
              ∷ codes "  [q] Quit"
              ∷ []))
        ∷ [])
