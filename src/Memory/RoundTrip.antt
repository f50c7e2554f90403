-- ===== src/Memory/RoundTrip.antt =====
-- What memory_parse makes of a /proc/meminfo with the four amounts.
use rookietop.Common.{ℕ, ◌≤◌, ◌≡◌, refl, Bool, true, false, List, [], ◌∷◌, ◌++◌, some, arith}
use rookietop.Libc.Chars.{Bytes, codes, strip_prefix}
use rookietop.Libc.Numbers.{u64_max}
use rookietop.Libc.Files.{lines}
use rookietop.Libc.Files.Lines.{is_one_line}
use rookietop.Reading.{other}
use rookietop.Memory.{
  MemorySample, read_kib, parse_line, parse_lines, is_inconsistent, nothing_found, memory_parse,
}
use rookietop.Memory.Entries.{
  entry, read_kib-entry, AllPassed, text_of, with_newlines, AllShort, lines-text_of, AllShort-gap,
  parse_lines-gap, entry-IsShort,
}

-- What stands between the four entries, in the order of the kernel, and their blanks.
pub record Layout : Type 0 where
  pub before_total : List Bytes
  pub before_available : List Bytes
  pub before_swap_total : List Bytes
  pub before_swap_free : List Bytes
  pub total_pad : ℕ
  pub available_pad : ℕ
  pub swap_total_pad : ℕ
  pub swap_free_pad : ℕ

pub record IsLayout (l : Layout) : Type 0 where
  pub passed_total : AllPassed l.before_total
  pub passed_available : AllPassed l.before_available
  pub passed_swap_total : AllPassed l.before_swap_total
  pub passed_swap_free : AllPassed l.before_swap_free
  pub pads :
      (l.total_pad ≤ 200)
      × (l.available_pad ≤ 200)
      × (l.swap_total_pad ≤ 200)
      × (l.swap_free_pad ≤ 200)

abbrev swap_free_lines : Layout → MemorySample → List Bytes
swap_free_lines l s =
    l.before_swap_free ++ entry (codes "SwapFree") l.swap_free_pad s.swap_free_kib ∷ []

abbrev swap_total_lines : Layout → MemorySample → List Bytes
swap_total_lines l s =
    l.before_swap_total
    ++ entry (codes "SwapTotal") l.swap_total_pad s.swap_total_kib ∷ swap_free_lines l s

abbrev available_lines : Layout → MemorySample → List Bytes
available_lines l s =
    l.before_available
    ++ entry (codes "MemAvailable") l.available_pad s.available_kib ∷ swap_total_lines l s

abbrev all_lines : Layout → MemorySample → List Bytes
all_lines l s =
    l.before_total ++ entry (codes "MemTotal") l.total_pad s.total_kib ∷ available_lines l s

-- The four entries among other lines, and any text behind them.
unfoldable pub meminfo : Layout → MemorySample → Bytes → Bytes
meminfo l s rest = text_of (all_lines l s) rest

abbrev pub FitsU64 : MemorySample → Type 0
FitsU64 s =
    (s.total_kib ≤ u64_max)
    × (s.available_kib ≤ u64_max)
    × (s.swap_total_kib ≤ u64_max)
    × (s.swap_free_kib ≤ u64_max)

-- A line for one name is passed over by the tests for the names before it.
module _ (pad v : ℕ) where
  MemAvailable_other :
      read_kib (entry (codes "MemAvailable") pad v ++ 10 ∷ []) (codes "MemTotal") ≡ other
  unfolding read_kib entry strip_prefix
  MemAvailable_other = refl

  SwapTotal_other :
      (read_kib (entry (codes "SwapTotal") pad v ++ 10 ∷ []) (codes "MemTotal") ≡ other)
      × (read_kib (entry (codes "SwapTotal") pad v ++ 10 ∷ []) (codes "MemAvailable") ≡ other)
  unfolding read_kib entry strip_prefix
  SwapTotal_other = (refl, refl)

  SwapFree_other :
      (read_kib (entry (codes "SwapFree") pad v ++ 10 ∷ []) (codes "MemTotal") ≡ other)
      × (read_kib (entry (codes "SwapFree") pad v ++ 10 ∷ []) (codes "MemAvailable") ≡ other)
      × (read_kib (entry (codes "SwapFree") pad v ++ 10 ∷ []) (codes "SwapTotal") ≡ other)
  unfolding read_kib entry strip_prefix
  SwapFree_other = (refl, refl, refl)

module _ (l : Layout) (s : MemorySample) (ok : IsLayout l) (fits : FitsU64 s) where
  AllShort-all_lines : AllShort (all_lines l s)
  unfolding is_one_line
  AllShort-all_lines =
      let (few, few_available, few_swap, few_free) = ok.pads in
      let total =
        entry-IsShort (codes "MemTotal") l.total_pad s.total_kib refl (omega arith) few fits.0 in
      let available =
        entry-IsShort (codes "MemAvailable") l.available_pad s.available_kib refl (omega arith)
          few_available fits.1 in
      let swap_total =
        entry-IsShort (codes "SwapTotal") l.swap_total_pad s.swap_total_kib refl (omega arith)
          few_swap fits.2 in
      let swap_free =
        entry-IsShort (codes "SwapFree") l.swap_free_pad s.swap_free_kib refl (omega arith) few_free
          fits.3 in
      AllShort-gap l.before_total _ ok.passed_total (
        total.0,
        total.1,
        AllShort-gap l.before_available _ ok.passed_available (
          available.0,
          available.1,
          AllShort-gap l.before_swap_total _ ok.passed_swap_total (
            swap_total.0,
            swap_total.1,
            AllShort-gap l.before_swap_free _ ok.passed_swap_free (swap_free.0, swap_free.1, tt),
          ),
        ),
      )

  parse_lines-all_lines :
      (more : List Bytes)
      → parse_lines (with_newlines (all_lines l s) more) nothing_found
        ≡ some (record {
          sample = s;
          total = true;
          available = true;
          swap_total = true;
          swap_free = true;
        })
  unfolding parse_lines parse_line
  parse_lines-all_lines more =
      let p0 = nothing_found in
      let p1 = record p0 {
        sample = record (p0.sample) { total_kib = s.total_kib };
        total = true;
      } in
      let p2 = record p1 {
        sample = record (p1.sample) { available_kib = s.available_kib };
        available = true;
      } in
      let p3 = record p2 {
        sample = record (p2.sample) { swap_total_kib = s.swap_total_kib };
        swap_total = true;
      } in
      ground (
        arith,
        parse_lines-gap l.before_total
            (entry (codes "MemTotal") l.total_pad s.total_kib ∷ available_lines l s) more p0
            ok.passed_total refl,
        parse_lines-gap l.before_available
            (entry (codes "MemAvailable") l.available_pad s.available_kib ∷ swap_total_lines l s)
            more p1 ok.passed_available refl,
        parse_lines-gap l.before_swap_total
            (entry (codes "SwapTotal") l.swap_total_pad s.swap_total_kib ∷ swap_free_lines l s) more
            p2 ok.passed_swap_total refl,
        parse_lines-gap l.before_swap_free
            (entry (codes "SwapFree") l.swap_free_pad s.swap_free_kib ∷ []) more p3
            ok.passed_swap_free refl,
        read_kib-entry (codes "MemTotal") l.total_pad s.total_kib fits.0,
        read_kib-entry (codes "MemAvailable") l.available_pad s.available_kib fits.1,
        read_kib-entry (codes "SwapTotal") l.swap_total_pad s.swap_total_kib fits.2,
        read_kib-entry (codes "SwapFree") l.swap_free_pad s.swap_free_kib fits.3,
        MemAvailable_other l.available_pad s.available_kib,
        SwapTotal_other l.swap_total_pad s.swap_total_kib,
        SwapFree_other l.swap_free_pad s.swap_free_kib,
      )

-- A file with the four entries, of 64-bit amounts that are consistent, each on its line with at most
-- 200 blanks, in the order MemTotal, MemAvailable, SwapTotal, SwapFree, between which and before
-- which stand any lines of less than 255 bytes that start with none of these names and a colon,
-- parses to the four amounts, whatever text follows, if it is read without an error.
pub memory_parse-meminfo :
    (l : Layout) (s : MemorySample) (rest : Bytes) (c : Bool)
    → IsLayout l
    → FitsU64 s
    → is_inconsistent s ≡ false
    → memory_parse (record { content = meminfo l s rest; read_error = false; close_error = c })
      ≡ some s
unfolding memory_parse meminfo
memory_parse-meminfo l s rest c ok fits h = ground (
  arith,
  lines-text_of (all_lines l s) rest false c (AllShort-all_lines l s ok fits),
  parse_lines-all_lines l s ok fits
      (lines 256 (record { content = rest; read_error = false; close_error = c })),
)
