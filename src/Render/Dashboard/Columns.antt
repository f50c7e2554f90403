-- ===== src/Render/Dashboard/Columns.antt =====
-- The left column of the dashboard ends before the right one begins.
use rookietop.Common.{
  refl, Bool, ◌==◌, ℕ, ◌+◌, ◌-◌, ◌≤◌, ◌≡◌, false, [], ◌∷◌, length, length-append, replicate,
  length-replicate, arith,
}
use rookietop.Libc.Chars.{Bytes}
use rookietop.Libc.Int.{◌-ℤ◌}
use rookietop.Libc.Float.{Float}
use rookietop.Libc.Format.{pad_left, pad_right}
use rookietop.Render.Meters.{bar_filled, print_bar, print_metric}
use rookietop.Render.Meters.Widths.{bar_filled-le}
use rookietop.Render.{esc, ansi_reset}
use rookietop.Render.Plain.{IsPlain, is_plain, plain, IsPlain-append, IsPlain-replicate}
use rookietop.Render.Columns.{
  columns, Takes, plain-Takes, ansi_reset-Takes, ansi-Takes, printed-Takes, columns-Takes,
}
use mathlib.Core.Path.{subst}
use rookietop.Render.Dashboard.Panels.{split_column, right_column, overview_bar_width}

bar_width_lem :
    (term_cols : ℕ) → 100 ≤ term_cols → overview_bar_width term_cols + 29 ≡ split_column term_cols
unfolding overview_bar_width ◌-ℤ◌
bar_width_lem term_cols h = ground arith

length-pad_left : (n : ℕ) (s : Bytes) → length s ≤ n → length (pad_left n s) ≤ n
length-pad_left n s h = omega (
  arith,
  length-append (replicate (n - length s) 32) s,
  length-replicate {A = ℕ} (n - length s) 32,
)

length-pad_right : (n : ℕ) (s : Bytes) → length s ≤ n → length (pad_right n s) ≤ n
length-pad_right n s h = omega (
  arith,
  length-append s (replicate (n - length s) 32),
  length-replicate {A = ℕ} (n - length s) 32,
)

pad_left-Takes : (n : ℕ) (s : Bytes) → IsPlain s → length s ≤ n → Takes n (pad_left n s)
pad_left-Takes n s h k =
    plain-Takes n (pad_left n s) (IsPlain-append (IsPlain-replicate (n - length s) 32 refl) h)
      (length-pad_left n s k)

pad_right-Takes : (n : ℕ) (s : Bytes) → IsPlain s → length s ≤ n → Takes n (pad_right n s)
pad_right-Takes n s h k =
    plain-Takes n (pad_right n s) (IsPlain-append h (IsPlain-replicate (n - length s) 32 refl))
      (length-pad_right n s k)

repeated-Takes : (n c : ℕ) → (c == esc) ≡ false → Takes n (replicate n c)
repeated-Takes n c h =
    plain-Takes n (replicate n c) (IsPlain-replicate n c h)
      (omega (arith, length-replicate {A = ℕ} n c))

module _ (f : Float) (use_color : Bool) where
  open f use {Double, fixed}

  print_bar-Takes :
      (percent : Double) (width : ℕ) (color : Bytes)
      → Takes 0 color
      → Takes (width + 2) (print_bar f use_color percent width color)
  unfolding print_bar is_plain
  print_bar-Takes percent width color colour =
      let filled = bar_filled f percent width in
      let total : 1 + (0 + (filled + (0 + ((width - filled) + (1 + 0))))) ≡ width + 2 =
        omega (arith, bar_filled-le f percent width) in
      subst (λ n. Takes n (print_bar f use_color percent width color)) total
        (printed-Takes (1 ∷ 0 ∷ filled ∷ 0 ∷ (width - filled) ∷ 1 ∷ []) _ (
          plain-Takes 1 _ (plain refl) (omega arith),
          (
            ansi-Takes use_color color colour,
            (
              repeated-Takes filled b'#' refl,
              (
                ansi-Takes use_color ansi_reset ansi_reset-Takes,
                (
                  repeated-Takes (width - filled) b'.' refl,
                  (plain-Takes 1 _ (plain refl) (omega arith), tt),
                ),
              ),
            ),
          ),
        ))

  print_metric-Takes :
      (name : Bytes) (percent : Double) (status color : Bytes) (width : ℕ)
      → IsPlain name
      → IsPlain status
      → IsPlain (fixed 1 percent)
      → Takes 0 color
      → length name ≤ 8
      → length status ≤ 9
      → length (fixed 1 percent) ≤ 5
      → Takes (width + 29) (print_metric f use_color name percent status color width)
  unfolding print_metric is_plain
  print_metric-Takes name percent status color width p q r colour short fits narrow =
      let total : 8 + (1 + ((width + 2) + (1 + (5 + (3 + (0 + (9 + (0 + 0)))))))) ≡ width + 29 =
        omega arith in
      subst (λ n. Takes n (print_metric f use_color name percent status color width)) total
        (printed-Takes (8 ∷ 1 ∷ (width + 2) ∷ 1 ∷ 5 ∷ 3 ∷ 0 ∷ 9 ∷ 0 ∷ []) _ (
          pad_right-Takes 8 name p short,
          (
            plain-Takes 1 _ (plain refl) (omega arith),
            (
              print_bar-Takes percent width color colour,
              (
                plain-Takes 1 _ (plain refl) (omega arith),
                (
                  pad_left-Takes 5 (fixed 1 percent) r narrow,
                  (
                    plain-Takes 3 _ (plain refl) (omega arith),
                    (
                      ansi-Takes use_color color colour,
                      (
                        plain-Takes 9 status q fits,
                        (ansi-Takes use_color ansi_reset ansi_reset-Takes, tt),
                      ),
                    ),
                  ),
                ),
              ),
            ),
          ),
        ))

  -- On a terminal of at least 100 columns, with colours or without, a metric that starts in column 2
  -- ends before the right column, if its colour takes no column, its name has at most 8 bytes, its
  -- status at most 9, its percentage prints as at most 5, and none of these starts an escape
  -- sequence.
  pub print_metric-fits :
      (term_cols : ℕ) (name : Bytes) (percent : Double) (status color : Bytes)
      → 100 ≤ term_cols
      → IsPlain name
      → IsPlain status
      → IsPlain (fixed 1 percent)
      → Takes 0 color
      → length name ≤ 8
      → length status ≤ 9
      → length (fixed 1 percent) ≤ 5
      → 2
          + columns
              (print_metric f use_color name percent status color (overview_bar_width term_cols))
        ≤ right_column term_cols
  print_metric-fits term_cols name percent status color wide p q r colour short fits narrow =
      let width = overview_bar_width term_cols in
      let bound =
        columns-Takes (width + 29) _
          (print_metric-Takes name percent status color width p q r colour short fits narrow) in
      omega (arith, bound, bar_width_lem term_cols wide)
