-- ===== src/Memory/Entries.antt =====
-- The lines of a /proc/meminfo, and what memory_parse makes of each.
use rookietop.Common.{
  replicate, length-replicate, ◌<◌, none, zero, suc, ℕ, ◌+◌, ◌≤◌, ◌≡◌, refl, Bool, true, false,
  List, [], ◌∷◌, ◌++◌, arith, length, length-append, ap, ◌∙◌,
}
use mathlib.Core.List.{append_assoc}
use rookietop.Libc.Chars.{
  Bytes, codes, strip_prefix, strip_prefix-append, str_eq, skip_while, is_space, is_digit,
}
use rookietop.Libc.Decimal.{decimal, length-decimal, all_digits-decimal}
use rookietop.Libc.Fields.{scan_u64-blanks}
use rookietop.Libc.Numbers.{u64_max, scan_amount, scan_u64-decimal, take_word}
use rookietop.Libc.Files.{lines}
use rookietop.Libc.Files.Lines.{is_one_line, is_one_line-append, all_digits-is_one_line, lines-line}
use rookietop.Reading.{other, found, amount}
use rookietop.Memory.{Progress, found_all, read_kib, parse_line, parse_lines}

-- `name: value kB` with `pad` blanks before the value
unfoldable pub entry : Bytes → ℕ → ℕ → Bytes
entry name pad v = name ++ (b':' ∷ (replicate pad 32 ++ (decimal v ++ codes " kB")))

scan_amount-blanks : (pad : ℕ) (s : Bytes) → scan_amount (replicate pad 32 ++ s) ≡ scan_amount s
unfolding scan_amount
scan_amount-blanks pad s = ground (arith, scan_u64-blanks pad s)

amount-kb : (v : ℕ) → v ≤ u64_max → amount (scan_amount (decimal v ++ codes " kB\n")) ≡ found v
unfolding amount scan_amount take_word skip_while is_space str_eq
amount-kb v h = ground (arith, scan_u64-decimal v (codes " kB\n") h (unfold is_digit in refl))

pub read_kib-entry :
    (name : Bytes) (pad v : ℕ) → v ≤ u64_max → read_kib (entry name pad v ++ 10 ∷ []) name ≡ found v
unfolding read_kib entry
read_kib-entry name pad v h = ground (
  arith,
  append_assoc name (b':' ∷ (replicate pad 32 ++ (decimal v ++ codes " kB"))) (10 ∷ []),
  append_assoc (replicate pad 32) (decimal v ++ codes " kB") (10 ∷ []),
  append_assoc (decimal v) (codes " kB") (10 ∷ []),
  strip_prefix-append name (b':' ∷ (replicate pad 32 ++ (decimal v ++ codes " kB\n"))),
  scan_amount-blanks pad (decimal v ++ codes " kB\n"),
  amount-kb v h,
)

-- A line that starts with none of the four names and a colon, and that fits the buffer.
pub record IsPassed (line : Bytes) : Type 0 where
  pub one_line : is_one_line line ≡ true
  pub not_total : strip_prefix (codes "MemTotal:") line ≡ none
  pub not_available : strip_prefix (codes "MemAvailable:") line ≡ none
  pub not_swap_total : strip_prefix (codes "SwapTotal:") line ≡ none
  pub not_swap_free : strip_prefix (codes "SwapFree:") line ≡ none
  pub short : length line < 255

pub passed :
    {line : Bytes}
    → is_one_line line ≡ true
    → strip_prefix (codes "MemTotal:") line ≡ none
    → strip_prefix (codes "MemAvailable:") line ≡ none
    → strip_prefix (codes "SwapTotal:") line ≡ none
    → strip_prefix (codes "SwapFree:") line ≡ none
    → length line < 255
    → IsPassed line
passed a b c d e h = record {
  one_line = a;
  not_total = b;
  not_available = c;
  not_swap_total = d;
  not_swap_free = e;
  short = h;
}

abbrev pub AllPassed : List Bytes → Type 0
AllPassed [] = Unit
AllPassed (line ∷ more) = IsPassed line × AllPassed more

-- A line without the name and its colon is not one for that name.
read_kib-other :
    (name line : Bytes)
    → strip_prefix (name ++ b':' ∷ []) line ≡ none
    → read_kib (line ++ 10 ∷ []) name ≡ other
unfolding read_kib strip_prefix
read_kib-other [] [] h = refl
read_kib-other [] (c ∷ cs) h = ground (arith, h)
read_kib-other (p ∷ []) [] h = ground arith
read_kib-other (p ∷ q ∷ qs) [] h = ground arith
read_kib-other (p ∷ ps) (c ∷ cs) h = ground (arith, h, read_kib-other ps cs)

-- Lines, and any text behind them.
unfoldable pub text_of : List Bytes → Bytes → Bytes
text_of [] rest = rest
text_of (line ∷ more) rest = line ++ 10 ∷ text_of more rest

abbrev pub with_newlines : List Bytes → List Bytes → List Bytes
with_newlines [] rest = rest
with_newlines (line ∷ more) rest = (line ++ 10 ∷ []) ∷ with_newlines more rest

abbrev pub AllShort : List Bytes → Type 0
AllShort [] = Unit
AllShort (line ∷ more) = (is_one_line line ≡ true) × (length line < 255) × AllShort more

pub lines-text_of :
    (ls : List Bytes) (rest : Bytes) (e c : Bool)
    → AllShort ls
    → lines 256 (record { content = text_of ls rest; read_error = e; close_error = c })
      ≡ with_newlines ls (lines 256 (record { content = rest; read_error = e; close_error = c }))
unfolding text_of
lines-text_of [] rest e c h = refl
lines-text_of (line ∷ more) rest e c h =
    lines-line 256 line (text_of more rest) e c h.0 (omega (arith, h.1))
    ∙ ap (◌∷◌ (line ++ 10 ∷ [])) (lines-text_of more rest e c h.2)

pub AllShort-gap : (gap ls : List Bytes) → AllPassed gap → AllShort ls → AllShort (gap ++ ls)
AllShort-gap [] ls h k = k
AllShort-gap (line ∷ more) ls h k = (h.0.one_line, h.0.short, AllShort-gap more ls h.1 k)

-- A sample that is not complete goes on behind lines that are passed over.
pub parse_lines-gap :
    (gap ls more : List Bytes) (p : Progress)
    → AllPassed gap
    → found_all p ≡ false
    → parse_lines (with_newlines (gap ++ ls) more) p ≡ parse_lines (with_newlines ls more) p
unfolding parse_lines parse_line
parse_lines-gap [] ls more p h k = refl
parse_lines-gap (line ∷ gap) ls more p h k = ground (
  arith,
  read_kib-other (codes "MemTotal") line h.0.not_total,
  read_kib-other (codes "MemAvailable") line h.0.not_available,
  read_kib-other (codes "SwapTotal") line h.0.not_swap_total,
  read_kib-other (codes "SwapFree") line h.0.not_swap_free,
  parse_lines-gap gap ls more p h.1 k,
)

is_one_line-blanks : (pad : ℕ) → is_one_line (replicate pad 32) ≡ true
unfolding is_one_line
is_one_line-blanks zero = refl
is_one_line-blanks (suc pad) = ground (arith, is_one_line-blanks pad)

is_one_line-entry :
    (name : Bytes) (pad v : ℕ) → is_one_line name ≡ true → is_one_line (entry name pad v) ≡ true
unfolding entry
is_one_line-entry name pad v h =
    is_one_line-append name (b':' ∷ (replicate pad 32 ++ (decimal v ++ codes " kB"))) h (
      unfold is_one_line in
      is_one_line-append (replicate pad 32) (decimal v ++ codes " kB") (is_one_line-blanks pad) (
        is_one_line-append (decimal v) (codes " kB")
          (all_digits-is_one_line (decimal v) (all_digits-decimal v)) refl))

length-entry :
    (name : Bytes) (pad v : ℕ) → v ≤ u64_max → length (entry name pad v) ≤ length name + pad + 24
unfolding entry
length-entry name pad v h = omega (
  arith,
  length-append name (b':' ∷ (replicate pad 32 ++ (decimal v ++ codes " kB"))),
  length-append (replicate pad 32) (decimal v ++ codes " kB"),
  length-replicate {A = ℕ} pad 32,
  length-append (decimal v) (codes " kB"),
  length-decimal v (omega arith),
)

abbrev pub IsShort : Bytes → Type 0
IsShort line = (is_one_line line ≡ true) × (length line < 255)

pub entry-IsShort :
    (name : Bytes) (pad v : ℕ)
    → is_one_line name ≡ true
    → length name ≤ 20
    → pad ≤ 200
    → v ≤ u64_max
    → IsShort (entry name pad v)
entry-IsShort name pad v one small few fit =
    (is_one_line-entry name pad v one, omega (arith, length-entry name pad v fit))
