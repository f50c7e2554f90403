-- ===== src/Render/Window/Selected.antt =====
-- The selected row of the process list is drawn on every terminal of at least 22 lines, and not
-- always on a smaller one.
use rookietop.Common.{
  ℕ, zero, suc, ◌+◌, ◌-◌, ◌<◌, ◌≤◌, ◌≡◌, refl, ltb, if◌then◌else◌, List, [], ◌∷◌, drop, length,
  get_elem?, some, arith, ◌⊎◌, inl, inr, ap, ◌∙◌,
}
use mathlib.Core.Option.{some-injective}
use rookietop.Libc.Int.{◌-ℤ◌}
use rookietop.Render.Window.{
  table_row, visible_count, window_start, window_room, Drawn, draw_loop, drawn_rows,
}

-- Above 18 lines, a line more is room for a row more.
window_room_lem : (term_rows : ℕ) → window_room term_rows ≡ term_rows - 18
unfolding window_room ◌-ℤ◌
window_room_lem term_rows = ground arith

visible_count_lem :
    (term_rows : ℕ) → visible_count term_rows ≡ (if ltb term_rows 22 then 4 else term_rows - 18)
unfolding visible_count ◌-ℤ◌
visible_count_lem term_rows = ground arith

module _ {A : Type 0} where
  -- The item with this index is drawn on this line.
  abbrev pub IsDrawn : ℕ → ℕ → A → List (Drawn A) → Type 0
  IsDrawn i line item [] = ⊥
  IsDrawn i line item (d ∷ ds) =
      ((d.index ≡ i) × (d.line ≡ line) × (d.item ≡ item)) ⊎ IsDrawn i line item ds

  get_elem?-lt :
      (items : List A) (i : ℕ) {item : A} → get_elem? items i ≡ some item → i < length items
  get_elem?-lt [] i h = cc
  get_elem?-lt (x ∷ xs) zero h = omega arith
  get_elem?-lt (x ∷ xs) (suc i) h = omega (arith, get_elem?-lt xs i h)

  get_elem?-drop :
      (start j : ℕ) (items : List A) → get_elem? (drop start items) j ≡ get_elem? items (start + j)
  get_elem?-drop zero j items = let e : j ≡ 0 + j = omega arith in ap (get_elem? items) e
  get_elem?-drop (suc start) j [] = refl
  get_elem?-drop (suc start) j (x ∷ xs) =
      let e : suc (start + j) ≡ suc start + j = omega arith in
      get_elem?-drop start j xs ∙ ap (get_elem? (x ∷ xs)) e

  draw_loop-IsDrawn :
      (room i row j k l : ℕ) (items : List A) (item : A)
      → get_elem? items j ≡ some item
      → j < room
      → k ≡ i + j
      → l ≡ row + j
      → IsDrawn k l item (draw_loop room i row items)
  unfolding draw_loop
  draw_loop-IsDrawn zero i row j k l items item h b e e' = absurd (omega arith)
  draw_loop-IsDrawn (suc room) i row j k l [] item h b e e' = cc
  draw_loop-IsDrawn (suc room) i row zero k l (x ∷ xs) item h b e e' =
      inl (omega arith, omega arith, some-injective x item h)
  draw_loop-IsDrawn (suc room) i row (suc j) k l (x ∷ xs) item h b e e' = inr (
      draw_loop-IsDrawn room (suc i) (suc row) j k l xs item h (omega arith) (omega arith)
        (omega arith))

  draw_loop-lt :
      (room i row k l : ℕ) (items : List A) (item : A)
      → IsDrawn k l item (draw_loop room i row items)
      → k < i + room
  unfolding draw_loop
  draw_loop-lt zero i row k l items item h = absurd h
  draw_loop-lt (suc room) i row k l [] item h = absurd h
  draw_loop-lt (suc room) i row k l (x ∷ xs) item (inl (same, line, this)) = omega arith
  draw_loop-lt (suc room) i row k l (x ∷ xs) item (inr later) =
      omega (arith, draw_loop-lt room (suc i) (suc row) k l xs item later)

  -- On a terminal of at least 22 lines the selected row is among those that render_processes draws,
  -- above the rule over the description.
  pub drawn_rows-IsDrawn :
      (term_rows selected : ℕ) (rows : List A) (item : A)
      → 22 ≤ term_rows
      → get_elem? rows selected ≡ some item
      → (line : ℕ) × IsDrawn selected line item (drawn_rows term_rows selected rows)
        × (line + 10 < term_rows)
  unfolding drawn_rows window_start
  drawn_rows-IsDrawn term_rows selected rows item tall there =
      let start = window_start (length rows) selected (visible_count term_rows) in
      let bound = get_elem?-lt rows selected there in
      let below : selected - start < window_room term_rows =
        ground (arith, window_room_lem term_rows, visible_count_lem term_rows) in
      let from : start ≤ selected = ground (arith, visible_count_lem term_rows) in
      (
        table_row + (selected - start),
        draw_loop-IsDrawn (window_room term_rows) start table_row (selected - start) selected
            (table_row + (selected - start)) (drop start rows) item
            (get_elem?-drop start (selected - start) rows
              ∙ ap (get_elem? rows) (omega arith)
              ∙ there)
            below (omega arith) refl,
        omega (arith, window_room_lem term_rows),
      )

  -- On a terminal of fewer than 22 lines, the fourth row of the list is not drawn when it is
  -- selected.
  pub drawn_rows-fourth :
      (term_rows line : ℕ) (rows : List A) (item : A)
      → term_rows < 22
      → get_elem? rows 3 ≡ some item
      → ¬ IsDrawn 3 line item (drawn_rows term_rows 3 rows)
  unfolding drawn_rows window_start
  drawn_rows-fourth term_rows line rows item low there h =
      let start = window_start (length rows) 3 (visible_count term_rows) in
      let at_top : start ≡ 0 = ground (arith, visible_count_lem term_rows) in
      omega (
        arith,
        at_top,
        window_room_lem term_rows,
        draw_loop-lt (window_room term_rows) start table_row 3 line (drop start rows) item h,
      )
