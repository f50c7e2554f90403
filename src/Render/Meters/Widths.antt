-- ===== src/Render/Meters/Widths.antt =====
-- The widths of the bars and of the history.
use rookietop.Common.{
  ℕ, ◌+◌, ◌-◌, ◌≤◌, ◌≡◌, refl, false, ltb, if◌then◌else◌, List, [], ◌∷◌, ◌++◌, map, length, take,
  drop, replicate, min, length-append, length-replicate, length-map, length-drop, take-append-drop,
  arith, ◌∙◌,
}
use rookietop.Libc.Chars.{Bytes}
use rookietop.Libc.Float.{Float}
use rookietop.Libc.Format.{printed}
use rookietop.Render.Meters.{bar_filled, print_bar, history_mark, history_marks, history_padding}

module _ (f : Float) where
  open f use {Double, truncate}

  pub bar_filled-le : (percent : Double) (width : ℕ) → bar_filled f percent width ≤ width
  unfolding bar_filled
  bar_filled-le percent width = ground arith

  -- Without colours, a bar has exactly as many characters as its width between the brackets,
  -- whatever the percentage: first those that are filled, then the dots.
  pub print_bar-width :
      (percent : Double) (width : ℕ) (color : Bytes)
      → (filled : ℕ) × (filled ≤ width)
        × (print_bar f false percent width color
            ≡ b'[' ∷ (replicate filled b'#' ++ (replicate (width - filled) b'.' ++ b']' ∷ [])))
        × (length (print_bar f false percent width color) ≡ width + 2)
  unfolding print_bar printed
  print_bar-width percent width color =
      let filled = bar_filled f percent width in
      let marks : Bytes = replicate filled b'#' in
      let dots : Bytes = replicate (width - filled) b'.' in
      (
        filled,
        bar_filled-le percent width,
        refl,
        omega (
          arith,
          length-append marks (dots ++ b']' ∷ []),
          length-append dots (b']' ∷ []),
          length-replicate {A = ℕ} filled b'#',
          length-replicate {A = ℕ} (width - filled) b'.',
          bar_filled-le percent width,
        ),
      )

  -- The dots and the marks of a history have its width together, and the marks are those of the
  -- last values: of all of them, or of as many as the width has room for.
  pub history_marks-width :
      (values : List Double) (width : ℕ)
      → (length (history_padding (length values) width) + length (history_marks f values width)
          ≡ width)
        × ((older : List Double) × (recent : List Double) × (older ++ recent ≡ values)
            × (length recent ≡ min (length values) width)
            × (history_marks f values width ≡ map (history_mark f) recent))
  unfolding history_padding history_marks
  history_marks-width values width =
      let count = length values in
      let shown = if ltb count width then count else width in
      let recent = drop (count - shown) values in
      let small : shown ≡ min count width = ground arith in
      let size : length recent ≡ shown = omega (arith, small, length-drop (count - shown) values) in
      (
        omega (
          arith,
          small,
          length-replicate {A = ℕ} (width - shown) b'.',
          length-map recent (history_mark f),
          size,
        ),
        (
          take (count - shown) values,
          recent,
          take-append-drop (count - shown) values,
          size ∙ small,
          refl,
        ),
      )
