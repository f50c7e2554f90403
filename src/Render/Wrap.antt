-- ===== src/Render/Wrap.antt =====
-- print_wrapped of src/main.c: a text in lines that fit a width.
use rookietop.Common.{
  ℕ, Bool, zero, suc, ◌+◌, ◌-◌, not, ◌==◌, ltb, if◌then◌else◌, List, [], ◌∷◌, Option, none, some,
  length, take, drop, get_or,
}
use rookietop.Libc.Chars.{Bytes, codes, skip_while}
use rookietop.Libc.Int.{ℤ, pos, ◌+ℤ◌}
use rookietop.Libc.Format.{printed}
use rookietop.Render.{move_to}
pub mod Lines

abbrev pub is_blank_char : ℕ → Bool
is_blank_char c = c == b' '

-- while (split > 0 && cursor[split] != ' ') split--;
unfoldable pub split_at : Bytes → ℕ → ℕ
split_at cursor zero = 0
split_at cursor (suc k) =
    let rest = split_at cursor k in if is_blank_char (get_or cursor (suc k) 0) then suc k else rest

-- The length of the next line.
unfoldable pub next_take : ℕ → Bytes → ℕ
next_take width cursor =
    let remaining = length cursor in
    let taken = if ltb remaining width then remaining else width in
    let split = split_at cursor taken in
    if ltb width remaining then (if ltb 0 split then split else taken) else taken

-- One round of the loop, given what the rounds behind it give.
unfoldable pub wrap_round : ℕ → Bytes → Option (List Bytes) → Option (List Bytes)
wrap_round width [] rest = some []
wrap_round width (c ∷ cs) none = none
wrap_round width (c ∷ cs) (some lines) = some (take (next_take width (c ∷ cs)) (c ∷ cs) ∷ lines)

-- The lines, by fuel: `none` for a loop that has not ended.
unfoldable pub wrap : ℕ → ℕ → Bytes → Option (List Bytes)
unfolding wrap_round
wrap zero width text = wrap_round width (skip_while is_blank_char text) none
wrap (suc fuel) width text =
    let cursor = skip_while is_blank_char text in
    wrap_round width cursor (wrap fuel width (drop (next_take width cursor) cursor))

abbrev pub wrapped_lines : ℕ → Bytes → Option (List Bytes)
wrapped_lines width text = wrap (length text) width text

-- Each line on a row of its own.
unfoldable pub place_lines : ℤ → ℤ → List Bytes → Bytes
place_lines row col [] = []
place_lines row col (line ∷ rest) =
    printed (move_to row col ∷ line ∷ place_lines (row +ℤ pos 1) col rest ∷ [])

-- What is printed, and the row behind it: `none` for a loop that does not end.
unfoldable pub print_wrapped : ℕ → ℤ → ℕ → Bytes → Option (Bytes × ℕ)
print_wrapped row col width text = elim (wrapped_lines width text) [
  | none ↦ none
  | some lines ↦ some (place_lines (pos row) col lines, row + length lines)
]
