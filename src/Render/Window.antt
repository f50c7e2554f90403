-- ===== src/Render/Window.antt =====
-- render_processes of src/main.c: which rows of the process list are drawn, and where.
use rookietop.Common.{
  ℕ, zero, suc, ◌+◌, ◌-◌, Bool, ◌&&◌, ltb, leb, if◌then◌else◌, List, [], ◌∷◌, drop, length,
}
use rookietop.Libc.Int.{ℤ, pos, pos_part, ◌-ℤ◌, at_least_ℤ}
pub mod Selected

abbrev pub table_row : ℕ
table_row = 8

abbrev pub about_row : ℕ → ℤ
about_row term_rows = pos term_rows -ℤ pos 9

-- `visible`, which is not below 4.
unfoldable pub visible_count : ℕ → ℕ
visible_count term_rows =
    pos_part (at_least_ℤ (pos 4) (about_row term_rows -ℤ pos table_row -ℤ pos 1))

-- `start`
unfoldable pub window_start : ℕ → ℕ → ℕ → ℕ
window_start count selected visible =
    if ltb 0 count && leb visible selected then selected - visible + 1 else 0

-- The rounds of the loop that `row < about_row - 1` leaves room for.
unfoldable pub window_room : ℕ → ℕ
window_room term_rows = pos_part (about_row term_rows -ℤ pos 1 -ℤ pos table_row)

-- A row that is drawn: its index, the line of the terminal, and what it shows.
pub record Drawn (A : Type 0) : Type 0 where
  pub index : ℕ
  pub line : ℕ
  pub item : A

module _ {A : Type 0} where
  -- for (i = start; i < count && row < about_row - 1; i++, row++)
  unfoldable pub draw_loop : ℕ → ℕ → ℕ → List A → List (Drawn A)
  draw_loop zero i row items = []
  draw_loop (suc room) i row [] = []
  draw_loop (suc room) i row (item ∷ items) =
      record { index = i; line = row; item = item } ∷ draw_loop room (suc i) (suc row) items

  unfoldable pub drawn_rows : ℕ → ℕ → List A → List (Drawn A)
  drawn_rows term_rows selected rows =
      let start = window_start (length rows) selected (visible_count term_rows) in
      draw_loop (window_room term_rows) start table_row (drop start rows)
