-- ===== src/Examples/Screens.antt =====
-- What the screens print, and the terminal around them.
use rookietop.Common.{
  ℕ, ◌+◌, ◌-◌, ◌≤◌, ◌≡◌, refl, true, false, List, [], ◌∷◌, ◌++◌, some, arith, length, map,
  replicate,
}
use rookietop.Libc.Chars.{Bytes, codes, skip_while}
use rookietop.Libc.Decimal.{decimal, digits_below}
use rookietop.Libc.Format.{printed}
use rookietop.Render.Meters.{print_bar, print_metric, history_padding, history_marks, history_mark}
use rookietop.Render.Meters.Widths.{print_bar-width, history_marks-width}
use rookietop.Render.Wrap.{wrapped_lines, wrap, wrap_round, next_take, split_at}
use rookietop.Render.Wrap.Lines.{AllFit, words, wrapped_lines-Wraps}
use rookietop.Render.Window.{drawn_rows}
use rookietop.Render.Window.Selected.{IsDrawn, drawn_rows-fourth}
use rookietop.Render.Dashboard.Panels.{overview_bar_width, right_column}
use rookietop.Render.Dashboard.Columns.{print_metric-fits}
use rookietop.Render.{ansi_green}
use rookietop.Render.Plain.{is_plain, plain}
use rookietop.Render.Columns.{columns, columns_from, Takes}
use rookietop.Terminal.Session.{
  Termios, Calls, fresh, at_exit, run_interactive, at_exit-run_interactive,
}
use rookietop.Examples.Data.{naturals}

wraps : wrapped_lines 5 (codes "ab cd  efg") ≡ some (codes "ab cd" ∷ codes "efg" ∷ [])
unfolding wrap wrap_round next_take split_at skip_while
wraps = refl

wrapped_lines-Wraps_example :
    (lines : List Bytes) × (wrapped_lines 5 (codes "ab cd  efg") ≡ some lines)
    × AllFit 5 lines
    × (words (printed lines) ≡ words (codes "ab cd  efg"))
wrapped_lines-Wraps_example = wrapped_lines-Wraps 5 (codes "ab cd  efg") (omega arith)

print_bar-width_example :
    (filled : ℕ) × (filled ≤ 10)
    × (print_bar naturals false 40 10 []
        ≡ b'[' ∷ (replicate filled b'#' ++ (replicate (10 - filled) b'.' ++ b']' ∷ [])))
    × (length (print_bar naturals false 40 10 []) ≡ 12)
print_bar-width_example = print_bar-width naturals 40 10 []

history_marks-width_example :
    (length (history_padding 3 2) + length (history_marks naturals (5 ∷ 50 ∷ 99 ∷ []) 2) ≡ 2)
    × ((older : List ℕ) × (recent : List ℕ) × (older ++ recent ≡ 5 ∷ 50 ∷ 99 ∷ [])
        × (length recent ≡ 2)
        × (history_marks naturals (5 ∷ 50 ∷ 99 ∷ []) 2 ≡ map (history_mark naturals) recent))
history_marks-width_example = history_marks-width naturals (5 ∷ 50 ∷ 99 ∷ []) 2

abbrev four : List ℕ
four = 5 ∷ 6 ∷ 7 ∷ 8 ∷ []

drawn_rows-fourth_example : ¬ IsDrawn {A = ℕ} 3 9 8 (drawn_rows 20 3 four)
drawn_rows-fourth_example = drawn_rows-fourth 20 9 four 8 (omega arith) refl

ansi_green-Takes : Takes 0 ansi_green
unfolding columns_from
ansi_green-Takes = record { takes = λ t. omega arith }

print_metric-fits_example :
    2
      + columns (
          print_metric naturals true
            (codes "Memory")
            40
            (codes "Normal")
            ansi_green
            (overview_bar_width 100))
    ≤ right_column 100
unfolding decimal digits_below is_plain
print_metric-fits_example =
    print_metric-fits naturals true 100 (codes "Memory") 40 (codes "Normal") ansi_green
      (omega arith) (plain refl) (plain refl) (plain refl) ansi_green-Takes (omega arith)
      (omega arith) (omega arith)

abbrev cooked : Termios
cooked = record {
  icanon = true;
  echo = true;
  ixon = true;
  icrnl = true;
  vmin = 1;
  vtime = 0;
  others = 0;
}

abbrev all_succeed : Calls
all_succeed = record {
  signal_ok = true;
  atexit_ok = true;
  tcgetattr_ok = true;
  tcsetattr_ok = true;
}

at_exit-run_interactive_example :
    let after = at_exit true (run_interactive all_succeed 0 (fresh cooked)) in
    (after.settings ≡ cooked) × (after.alternate ≡ false) × (after.input_state.active ≡ false)
at_exit-run_interactive_example = at_exit-run_interactive all_succeed 0 cooked
