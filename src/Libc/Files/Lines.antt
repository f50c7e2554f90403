-- ===== src/Libc/Files/Lines.antt =====
-- The lines of a text: each comes back whole if it fits the buffer.
use rookietop.Common.{
  ℕ, ◌+◌, ◌-◌, ◌<◌, ◌≡◌, refl, Bool, true, ◌&&◌, not, [], ◌∷◌, ◌++◌, map, arith, ◌==◌, length, ap,
  ◌∙◌,
}
use mathlib.Core.List.{append_assoc}
use rookietop.Libc.Chars.{Bytes, is_digit, c_string, take_until}
use rookietop.Libc.Decimal.{all_digits}
use rookietop.Libc.Files.{fgets_loop, lines}

-- A text of one line holds no newline and no NUL.
unfoldable pub is_one_line : Bytes → Bool
is_one_line [] = true
is_one_line (c ∷ cs) = not (c == 10) && not (c == 0) && is_one_line cs

pub is_one_line-append :
    (s t : Bytes) → is_one_line s ≡ true → is_one_line t ≡ true → is_one_line (s ++ t) ≡ true
unfolding is_one_line
is_one_line-append [] t h k = k
is_one_line-append (c ∷ cs) t h k = ground (arith, is_one_line-append cs t)

pub all_digits-is_one_line : (s : Bytes) → all_digits s ≡ true → is_one_line s ≡ true
unfolding all_digits is_one_line is_digit
all_digits-is_one_line [] h = refl
all_digits-is_one_line (c ∷ cs) h = ground (arith, all_digits-is_one_line cs)

c_string-line : (s : Bytes) → is_one_line s ≡ true → c_string (s ++ 10 ∷ []) ≡ s ++ 10 ∷ []
unfolding c_string take_until is_one_line
c_string-line [] h = refl
c_string-line (c ∷ cs) h = ground (arith, c_string-line cs)

fgets_loop-line :
    (size room : ℕ) (acc s rest : Bytes)
    → is_one_line s ≡ true
    → length s < room
    → fgets_loop size room acc (s ++ 10 ∷ rest)
      ≡ (acc ++ (s ++ 10 ∷ [])) ∷ fgets_loop size size [] rest
unfolding fgets_loop is_one_line
fgets_loop-line size room acc [] rest h k = refl
fgets_loop-line size room acc (c ∷ cs) rest h k = ground (
  arith,
  append_assoc acc (c ∷ []) (cs ++ 10 ∷ []),
  fgets_loop-line size (room - 1) (acc ++ c ∷ []) cs rest,
)

-- The lines of a text that starts with a line that fits.
pub lines-line :
    (size : ℕ) (s rest : Bytes) (e c : Bool)
    → is_one_line s ≡ true
    → length s + 1 < size
    → lines size (record { content = s ++ 10 ∷ rest; read_error = e; close_error = c })
      ≡ (s ++ 10 ∷ []) ∷ lines size (record { content = rest; read_error = e; close_error = c })
unfolding lines
lines-line size s rest e c h k =
    ap (map c_string) (fgets_loop-line (size - 1) (size - 1) [] s rest h (omega arith))
    ∙ ap (λ l. l ∷ map c_string (fgets_loop (size - 1) (size - 1) [] rest)) (c_string-line s h)
