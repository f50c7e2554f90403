-- ===== src/Reading.antt =====
-- The results 0, -1 and 1 of the functions that look at one line of a file, the last with what it
-- stores, and the amounts in kB that three of them read.
use rookietop.Common.{ℕ, not, ◌||◌, ◌==◌, if◌then◌else◌}
use rookietop.Libc.Chars.{Bytes, codes, str_eq}

pub data Reading {ℓ} (A : Type ℓ) : Type ℓ where
  other bad : Reading A
  found : A → Reading A

-- `fields != 2 || strcmp(unit, "kB") != 0`
unfoldable pub amount : ℕ × ℕ × Bytes → Reading ℕ
amount (fields, value, unit) =
    if not (fields == 2) || not (str_eq unit (codes "kB")) then bad else found value
