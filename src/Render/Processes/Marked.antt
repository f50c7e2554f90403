-- ===== src/Render/Processes/Marked.antt =====
-- The selected process is marked on the screen.
use rookietop.Common.{
  ℕ, ◌+◌, ◌<◌, ◌≤◌, ◌==◌, ◌≡◌, refl, Bool, List, [], ◌∷◌, ◌++◌, some, inl, inr, get_elem?, ==_iff,
  if◌then◌else◌, ap, length,
}
use rookietop.Libc.Chars.{Bytes, codes}
use rookietop.Libc.Int.{pos}
use rookietop.Libc.Float.{Float}
use rookietop.Libc.Format.{printed, IsPart, IsPart-left, IsPart-right}
use rookietop.ProcessList.{ProcessRow}
use rookietop.App.State.{AppState}
use rookietop.Render.{ansi, ansi_reset, ansi_reverse, move_to}
use rookietop.Render.Window.{Drawn, drawn_rows}
use rookietop.Render.Window.Selected.{IsDrawn, drawn_rows-IsDrawn}
use rookietop.Render.Processes.{
  row_columns, draw_row, draw_all, process_header, empty_line, process_footer, render_processes,
}

module _ (f : Float) (use_color : Bool) where
  -- What is printed for the selected row on a line: the mark, and the columns, reversed in colour.
  abbrev pub marked : ℕ → ℕ → ProcessRow f → Bytes
  marked line term_cols row =
      move_to (pos line) (pos 2)
      ++ printed (
          ansi use_color ansi_reverse
          ∷ codes "> "
          ∷ row_columns f term_cols row
          ∷ ansi use_color ansi_reset
          ∷ [])

  draw_all-IsPart :
      (term_cols selected line : ℕ) (row : ProcessRow f) (ds : List (Drawn (ProcessRow f)))
      → IsDrawn selected line row ds
      → IsPart (marked line term_cols row) (draw_all f use_color term_cols selected ds)
  unfolding draw_all draw_row
  draw_all-IsPart term_cols selected line row [] h = absurd h
  draw_all-IsPart term_cols selected line row (d ∷ ds) (inl (index, place, same)) =
      let chosen = (==_iff d.index selected).1 index in
      let this : draw_row f use_color term_cols selected d ≡ marked line term_cols row =
        rw (chosen, draw_row) (rw (place, same) refl) in
      (
        [],
        draw_all f use_color term_cols selected ds,
        ap (λ t. t ++ draw_all f use_color term_cols selected ds) this,
      )
  draw_all-IsPart term_cols selected line row (d ∷ ds) (inr later) =
      IsPart-left (draw_row f use_color term_cols selected d)
        (draw_all f use_color term_cols selected ds) (marked line term_cols row)
        (draw_all-IsPart term_cols selected line row ds later)

  -- On a terminal of at least 22 lines, render_processes prints the selected row with the mark, on
  -- a line above the rule over the description.
  pub render_processes-IsPart :
      (term_rows term_cols total_count : ℕ) (rows : List (ProcessRow f)) (state : AppState f)
      (row : ProcessRow f)
      → 22 ≤ term_rows
      → get_elem? rows state.selected ≡ some row
      → (line : ℕ) × IsPart
          (marked line term_cols row)
          (render_processes f use_color term_rows term_cols rows total_count state)
        × (line + 10 < term_rows)
  unfolding render_processes
  render_processes-IsPart term_rows term_cols total_count rows state row tall there =
      let (line, drawn, above) = drawn_rows-IsDrawn term_rows state.selected rows row tall there in
      let table =
        draw_all f use_color term_cols state.selected (drawn_rows term_rows state.selected rows) in
      let rest =
        (if length rows == 0 then empty_line f use_color state else [])
        ++ process_footer f use_color term_rows term_cols rows state in
      (
        line,
        IsPart-left (process_header f use_color term_cols (length rows) total_count state)
            (table ++ rest) (marked line term_cols row)
            (IsPart-right table rest (marked line term_cols row) (
              draw_all-IsPart term_cols state.selected line row
                (drawn_rows term_rows state.selected rows) drawn)),
        above,
      )
