-- ===== src/Render/Learning.antt =====
-- The screens of src/main.c for the lessons: print_live_context, render_learn_menu, render_lesson.
use rookietop.Common.{
  ℕ, zero, suc, ◌+◌, ◌==◌, ◌&&◌, Bool, List, [], ◌∷◌, ◌++◌, Option, none, some, if◌then◌else◌,
  ◌>>=◌,
}
use rookietop.Libc.Chars.{Bytes, codes}
use rookietop.Libc.Decimal.{decimal}
use rookietop.Libc.Int.{ℤ, pos, pos_part, ◌+ℤ◌, ◌-ℤ◌, at_least_ℤ, at_most_ℤ}
use rookietop.Libc.Float.{Float}
use rookietop.Libc.Format.{printed, pad_right}
use rookietop.Diagnosis.{in_units, kib_per_gib, bytes_per_gib}
use rookietop.Teaching.{
  TeachingTopic, teach_cpu, teach_memory, teach_load, teach_disk, teach_network, teaching_get,
  teaching_count,
}
use rookietop.Overview.{Overview}
use rookietop.App.State.{AppState}
use rookietop.Render.{
  ansi, ansi_reset, ansi_bold, ansi_dim, ansi_green, ansi_cyan, ansi_reverse, clear_screen, move_to,
  print_rule, print_key, coloured,
}
use rookietop.Render.Meters.{cpu_status, load_status}
use rookietop.Render.Compact.{mib_per_sec}
use rookietop.Render.Wrap.{print_wrapped}
pub mod Ends

-- `width` in render_lesson.
unfoldable pub lesson_width : ℕ → ℕ
lesson_width term_cols =
    pos_part (at_least_ℤ (pos 48) (at_most_ℤ (pos 110) (pos term_cols -ℤ pos 9)))

module _ (f : Float) where
  open f use {fixed}

  unfoldable pub print_live_context : Overview f → ℕ → Bytes
  print_live_context view concept =
      if concept == teach_cpu
      then printed (
          codes "CPU is "
          ∷ fixed 1 view.cpu_percent
          ∷ codes "% busy right now ("
          ∷ cpu_status f view.cpu_percent
          ∷ codes ")."
          ∷ [])
      else if concept == teach_memory
      then printed (
          codes "Memory is "
          ∷ fixed 1 view.memory_percent
          ∷ codes "% used, with "
          ∷ in_units f view.memory.available_kib kib_per_gib
          ∷ codes " GiB still available."
          ∷ [])
      else if concept == teach_load && view.host_ok
      then printed (
          codes "Load is "
          ∷ fixed 2 view.host.load1
          ∷ codes " on "
          ∷ decimal view.host.cores
          ∷ codes " CPUs ("
          ∷ load_status f view
          ∷ codes ")."
          ∷ [])
      else if concept == teach_disk
      then printed (
          codes "The root filesystem is "
          ∷ fixed 1 view.disk_percent
          ∷ codes "% used, with "
          ∷ in_units f view.disk.available_bytes bytes_per_gib
          ∷ codes " GiB available."
          ∷ [])
      else if concept == teach_network && view.network_ok
      then printed (
          codes "Traffic now: down "
          ∷ mib_per_sec f view.rx_per_sec
          ∷ codes " MiB/s, up "
          ∷ mib_per_sec f view.tx_per_sec
          ∷ codes " MiB/s."
          ∷ [])
      else codes "RookieTop connects this concept to Linux interfaces on your running machine."

  module _ (use_color : Bool) where
    abbrev heading : ℕ → Bytes → Bytes
    heading row text = move_to (pos row) (pos 4) ++ coloured use_color ansi_cyan text

    -- One line of the menu.
    unfoldable pub menu_line : ℕ → Bool → TeachingTopic → Bytes
    menu_line row is_selected topic =
        move_to (pos row) (pos 4)
        ++ (if is_selected
            then printed (
                ansi use_color ansi_reverse
                ∷ codes "> "
                ∷ pad_right 22 topic.title
                ∷ ansi use_color ansi_reset
                ∷ codes "  "
                ∷ topic.summary
                ∷ [])
            else printed (
                codes "  "
                ∷ pad_right 22 topic.title
                ∷ codes "  "
                ∷ coloured use_color ansi_dim topic.summary
                ∷ []))

    -- for (i = …; …; i++, row += 2), with the rounds that are left
    unfoldable pub menu_lines : ℕ → ℕ → ℕ → ℕ → Bytes
    menu_lines zero i row selected = []
    menu_lines (suc left) i row selected =
        elim (teaching_get i) [ none ↦ [] | some topic ↦ menu_line row (i == selected) topic ]
        ++ menu_lines left (suc i) (row + 2) selected

    unfoldable pub live_line : AppState f → Bytes
    live_line state =
        let view = state.view in
        if state.view_ok
        then printed (
            move_to (pos 5) (pos 4)
            ∷ coloured use_color ansi_bold (codes "LIVE NOW")
            ∷ codes "  CPU "
            ∷ fixed 1 view.cpu_percent
            ∷ codes "%  |  Memory "
            ∷ fixed 1 view.memory_percent
            ∷ codes "%  |  Disk "
            ∷ fixed 1 view.disk_percent
            ∷ codes "%"
            ∷ (if view.host_ok
                then printed (
                    codes "  |  Load "
                    ∷ fixed 2 view.host.load1
                    ∷ codes " / "
                    ∷ decimal view.host.cores
                    ∷ codes " CPUs"
                    ∷ [])
                else [])
            ∷ [])
        else []

    unfoldable pub render_learn_menu : ℕ → ℕ → AppState f → Bytes
    render_learn_menu term_rows term_cols state =
        let left = pos 4 in
        let rule = print_rule (pos term_cols -ℤ pos 7) in
        let footer = pos term_rows -ℤ pos 2 in
        printed (
          clear_screen
          ∷ move_to (pos 1) left
          ∷ coloured use_color ansi_cyan (codes "EXPLORE YOUR LINUX SYSTEM")
          ∷ move_to (pos 2) left
          ∷ codes "Pick something you are curious about. The examples come from this machine."
          ∷ move_to (pos 3) left
          ∷ rule
          ∷ live_line state
          ∷ menu_lines teaching_count 0 8 state.learn_selected
          ∷ move_to footer left
          ∷ rule
          ∷ move_to (footer +ℤ pos 1) left
          ∷ print_key use_color (codes "Up/Down") (codes "Choose") ansi_cyan
          ∷ codes "   "
          ∷ print_key use_color (codes "Enter") (codes "Explain") ansi_green
          ∷ codes "   "
          ∷ coloured use_color ansi_dim (codes "[Esc] Back  [q] Quit")
          ∷ [])

    -- "ON YOUR MACHINE", and the row behind it.
    unfoldable pub lesson_context : AppState f → Bytes × ℕ
    lesson_context state =
        if state.view_ok
        then (
          printed (
              heading 5 (codes "ON YOUR MACHINE")
              ∷ move_to (pos 6) (pos 4)
              ∷ print_live_context state.view state.lesson
              ∷ []),
          7,
        )
        else ([], 4)

    -- A blank row, a heading, and a text under it, with the row behind it.
    unfoldable pub lesson_part : ℕ → ℕ → Bytes → Bytes → Option (Bytes × ℕ)
    lesson_part width row title text = do
      (lines, next) ← print_wrapped (row + 2) (pos 4) width text
      some (heading (row + 1) title ++ lines, next)

    unfoldable pub lesson_frame : ℕ → ℕ → Bytes
    lesson_frame term_rows term_cols =
        let footer = pos term_rows -ℤ pos 2 in
        printed (
          move_to footer (pos 4)
          ∷ print_rule (pos term_cols -ℤ pos 7)
          ∷ move_to (footer +ℤ pos 1) (pos 4)
          ∷ print_key use_color (codes "n") (codes "Next") ansi_cyan
          ∷ codes "   "
          ∷ print_key use_color (codes "b") (codes "Previous") ansi_cyan
          ∷ codes "   "
          ∷ coloured use_color ansi_dim (codes "[Esc] Topics  [q] Quit")
          ∷ [])

    unfoldable pub lesson_screen : ℕ → ℕ → AppState f → TeachingTopic → Option Bytes
    lesson_screen term_rows term_cols state topic = do
      let width = lesson_width term_cols
      let (context, row) = lesson_context state
      (what, row1) ← lesson_part width row (codes "WHAT IT MEANS") topic.what
      (why, row2) ← lesson_part width row1 (codes "WHEN TO CARE") topic.why
      (how, row3) ← lesson_part width row2 (codes "HOW LINUX SHOWS IT") topic.how
      (try_it, _) ← lesson_part width (row3 + 1) (codes "TRY IT") topic.try_it
      some (
          printed (
            clear_screen
            ∷ heading 1 (codes "EXPLAIN")
            ∷ codes "  "
            ∷ coloured use_color ansi_bold topic.title
            ∷ move_to (pos 2) (pos 4)
            ∷ coloured use_color ansi_dim topic.summary
            ∷ move_to (pos 3) (pos 4)
            ∷ print_rule (pos term_cols -ℤ pos 7)
            ∷ context
            ∷ what
            ∷ why
            ∷ how
            ∷ move_to (pos row3) (pos 4)
            ∷ coloured use_color ansi_dim (printed (codes "Source: " ∷ topic.source ∷ []))
            ∷ try_it
            ∷ lesson_frame term_rows term_cols
            ∷ []))

    -- `none` for a loop of print_wrapped that does not end.
    unfoldable pub render_lesson : ℕ → ℕ → AppState f → Option Bytes
    render_lesson term_rows term_cols state = elim (teaching_get state.lesson) [
      | none ↦ some []
      | some topic ↦ lesson_screen term_rows term_cols state topic
    ]
