-- ===== src/Libc/Files.antt =====
-- A file that the program reads by lines with fgets: its bytes, and what ferror and fclose say.
use rookietop.Common.{
  ℕ, zero, suc, ◌+◌, ◌-◌, ◌≡◌, refl, Bool, true, false, ◌&&◌, ◌||◌, not, List, [], ◌∷◌, ◌++◌, map,
  Option, none, some, arith, ltb, ◌==◌, if◌then◌else◌, ◌>>=◌, reject_if,
}
use rookietop.Libc.Chars.{Bytes, c_string}
pub mod Lines

pub record File : Type 0 where
  pub content : Bytes
  pub read_error : Bool
  pub close_error : Bool

abbrev emit : Bool → Bytes → List Bytes → List Bytes
emit full line rest = if full then line ∷ rest else rest

-- At the end of the file fgets returns what it has read, if it has read anything.
abbrev leftover : Bytes → List Bytes
leftover [] = []
leftover (b ∷ bs) = (b ∷ bs) ∷ []

-- The calls of fgets: a line ends behind a newline, or when the buffer is full.
unfoldable pub fgets_loop : ℕ → ℕ → Bytes → Bytes → List Bytes
fgets_loop size room line [] = leftover line
fgets_loop size room line (c ∷ cs) =
    let full = c == 10 || room == 1 in
    emit full (line ++ c ∷ [])
      (fgets_loop size (if full then size else room - 1) (if full then [] else line ++ c ∷ []) cs)

-- `while (fgets(line, size, file) != NULL)`: the C strings that `line` holds in turn.
unfoldable pub lines : ℕ → File → List Bytes
unfolding fgets_loop c_string
lines size file = map c_string (fgets_loop (size - 1) (size - 1) [] file.content)

-- `fgets(line, size, file)` once, then `fclose(file)`: `none` if either fails.
unfoldable pub first_line : ℕ → File → Option Bytes
first_line size file = elim (lines size file) [
  | [] ↦ none
  | line ∷ more ↦ reject_if file.close_error (some line)
]
