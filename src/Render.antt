-- ===== src/Render.antt =====
-- What src/main.c prints, as bytes: the colours, the cursor, the rules, and the keys.
use rookietop.Common.{ℕ, ◌-◌, Bool, List, [], ◌∷◌, ◌++◌, if◌then◌else◌, length, take, replicate}
use rookietop.Libc.Chars.{Bytes, codes}
use rookietop.Libc.Int.{ℤ, decimal_ℤ}
use rookietop.Libc.Format.{printed, repeat_char}
pub mod Meters
pub mod Wrap
pub mod Window
pub mod Compact
pub mod Plain
pub mod Columns
pub mod Processes
pub mod Details
pub mod Learning
pub mod Dashboard

abbrev pub esc : ℕ
esc = 27

abbrev sequence : Bytes → Bytes
sequence rest = esc ∷ (b'[' ∷ rest)

abbrev pub ansi_reset : Bytes
ansi_reset = sequence (codes "0m")

abbrev pub ansi_bold : Bytes
ansi_bold = sequence (codes "1m")

abbrev pub ansi_dim : Bytes
ansi_dim = sequence (codes "2m")

abbrev pub ansi_green : Bytes
ansi_green = sequence (codes "32m")

abbrev pub ansi_yellow : Bytes
ansi_yellow = sequence (codes "33m")

abbrev pub ansi_red : Bytes
ansi_red = sequence (codes "31m")

abbrev pub ansi_cyan : Bytes
ansi_cyan = sequence (codes "36m")

abbrev pub ansi_reverse : Bytes
ansi_reverse = sequence (codes "7m")

-- "\033[H\033[J"
abbrev pub clear_screen : Bytes
clear_screen = sequence (codes "H") ++ sequence (codes "J")

unfoldable pub move_to : ℤ → ℤ → Bytes
move_to row col = printed (sequence [] ∷ decimal_ℤ row ∷ codes ";" ∷ decimal_ℤ col ∷ codes "H" ∷ [])

unfoldable pub print_rule : ℤ → Bytes
print_rule width = repeat_char width b'-'

-- `use_color` is the global of that name.
module _ (use_color : Bool) where
  abbrev pub ansi : Bytes → Bytes
  ansi code = if use_color then code else []

  -- A text between a colour and ANSI_RESET.
  abbrev pub coloured : Bytes → Bytes → Bytes
  coloured color text = printed (ansi color ∷ text ∷ ansi ansi_reset ∷ [])

  unfoldable pub print_section : Bytes → Bytes
  print_section name = coloured ansi_bold name

  unfoldable pub print_key : Bytes → Bytes → Bytes → Bytes
  print_key key label color = printed (
      ansi ansi_bold
      ∷ ansi color
      ∷ codes "["
      ∷ key
      ∷ codes "]"
      ∷ ansi ansi_reset
      ∷ codes " "
      ∷ label
      ∷ [])
