-- ===== src/Memory.antt =====
-- src/memory.c: the four amounts of /proc/meminfo, and the memory in use.
use rookietop.Common.{
  ℕ, ◌-◌, ◌≡◌, Bool, true, false, ◌&&◌, ◌||◌, not, Option, none, some, ltb, ◌==◌, if◌then◌else◌,
  ◌>>=◌, reject_if, List, [], ◌∷◌,
}
use rookietop.Libc.Chars.{Bytes, codes, strip_prefix, str_eq}
use rookietop.Libc.Numbers.{scan_amount}
use rookietop.Libc.Files.{File, lines}
use rookietop.Reading.{Reading, other, bad, found, amount}
use rookietop.Libc.Float.{Float}
pub mod Usage
pub mod Entries
pub mod RoundTrip

pub record MemorySample : Type 0 where
  pub total_kib : ℕ
  pub available_kib : ℕ
  pub swap_total_kib : ℕ
  pub swap_free_kib : ℕ

unfoldable pub read_kib : Bytes → Bytes → Reading ℕ
read_kib line name = elim (strip_prefix name line) [
  | none ↦ other
  | some rest ↦ elim rest [
    | [] ↦ other
    | c ∷ cs ↦ if not (c == b':') then other else amount (scan_amount cs)
  ]
]

-- The sample read so far, and the bits of `found`.
pub record Progress : Type 0 where
  pub sample : MemorySample
  pub total : Bool
  pub available : Bool
  pub swap_total : Bool
  pub swap_free : Bool

-- `found == FOUND_ALL`
abbrev pub found_all : Progress → Bool
found_all p = p.total && p.available && p.swap_total && p.swap_free

-- How one round of the loop ends: `return -1`, the next round, or `break`.
pub data Round : Type 0 where
  fail : Round
  next stop : Progress → Round

-- `if (result < 0) return -1; if (result > 0) { found; continue; }`, else what follows.
abbrev pub keep : Reading ℕ → (ℕ → Progress) → Round → Round
keep bad store rest = fail
keep (found v) store rest = next (store v)
keep other store rest = rest

-- The test behind the last of the four names, which does not `continue`.
abbrev pub check_all : Progress → Round
check_all p = if found_all p then stop p else next p

abbrev pub keep_last : Reading ℕ → (ℕ → Progress) → Progress → Round
keep_last bad store p = fail
keep_last (found v) store p = check_all (store v)
keep_last other store p = check_all p

unfoldable pub parse_line : Progress → Bytes → Round
parse_line p line =
    keep (read_kib line (codes "MemTotal"))
      (λ v. record p { sample = record (p.sample) { total_kib = v }; total = true })
      (keep (read_kib line (codes "MemAvailable"))
        (λ v. record p { sample = record (p.sample) { available_kib = v }; available = true })
        (keep (read_kib line (codes "SwapTotal"))
          (λ v. record p { sample = record (p.sample) { swap_total_kib = v }; swap_total = true })
          (keep_last (read_kib line (codes "SwapFree"))
            (λ v. record p { sample = record (p.sample) { swap_free_kib = v }; swap_free = true })
            p)))

unfoldable pub parse_lines : List Bytes → Progress → Option Progress
parse_lines [] p = some p
parse_lines (line ∷ rest) p = elim (parse_line p line) [
  | fail ↦ none
  | next q ↦ parse_lines rest q
  | stop q ↦ some q
]

abbrev pub nothing_found : Progress
nothing_found = record {
  sample = record { total_kib = 0; available_kib = 0; swap_total_kib = 0; swap_free_kib = 0 };
  total = false;
  available = false;
  swap_total = false;
  swap_free = false;
}

-- `total_kib == 0 || available_kib > total_kib || swap_free_kib > swap_total_kib`
abbrev pub is_inconsistent : MemorySample → Bool
is_inconsistent s =
    s.total_kib == 0 || ltb s.total_kib s.available_kib || ltb s.swap_total_kib s.swap_free_kib

unfoldable pub memory_parse : File → Option MemorySample
memory_parse file = do
  p ← parse_lines (lines 256 file) nothing_found
  reject_if (file.read_error || not (found_all p) || is_inconsistent p.sample) (some p.sample)

unfoldable pub memory_read : Option File → Option MemorySample
memory_read source = do file ← source; reject_if file.close_error (memory_parse file)

module _ (f : Float) where
  open f use {Double, of_u64, literal, mul, div}

  -- The percentage, and the used memory and swap.
  unfoldable pub memory_usage : MemorySample → Option (Double × ℕ × ℕ)
  memory_usage s =
      let used = s.total_kib - s.available_kib in
      reject_if (is_inconsistent s) (
        some (
          div (mul (of_u64 used) (literal 100 1)) (of_u64 s.total_kib),
          used,
          s.swap_total_kib - s.swap_free_kib,
        ))
