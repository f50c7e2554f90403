-- ===== src/Network.antt =====
-- src/network.c: bytes received and sent, over all interfaces but the loopback.
use rookietop.Common.{
  ℕ, ◌+◌, ◌-◌, ◌*◌, ◌/◌, ◌%◌, ◌≡◌, Bool, true, false, ◌&&◌, ◌||◌, not, Option, none, some, ltb, leb,
  ◌==◌, if◌then◌else◌, ◌>>=◌, reject_if, List, [], ◌∷◌, length, get_or,
}
use rookietop.Libc.Chars.{Bytes, codes, strchr, skip_while, take_until, trim_end, is_blank, str_eq}
use rookietop.Libc.Numbers.{u64_mod, u64_max, scan_fields}
use rookietop.Libc.Files.{File, lines}
use rookietop.Libc.Float.{Float}
pub mod Totals

pub record NetworkSample : Type 0 where
  pub rx_bytes : ℕ
  pub tx_bytes : ℕ

-- One row of the table.
pub record Interface : Type 0 where
  pub name : Bytes
  pub rx : ℕ
  pub tx : ℕ

abbrev behind : Bytes → Bytes
behind [] = []
behind (c ∷ cs) = cs

unfoldable pub network_parse_line : Bytes → ℕ → Option Interface
network_parse_line line name_cap = do
  colon ← strchr line b':'
  let name = trim_end is_blank (take_until (λ c. c == b':') (skip_while is_blank line))
  let fields = scan_fields 16 (behind colon)
  reject_if (length name == 0 || leb name_cap (length name)) (
      reject_if (ltb (length fields) 9)
        (some (record { name = name; rx = get_or fields 0 0; tx = get_or fields 8 0 })))

-- The body of the loop over the lines: `none` ends network_read with -1.
unfoldable pub add_line : NetworkSample → Bytes → Option NetworkSample
add_line sample line = elim (network_parse_line line 64) [
  | none ↦ some sample
  | some i ↦
      if str_eq i.name (codes "lo")
      then some sample
      else reject_if (ltb (u64_max - sample.rx_bytes) i.rx || ltb (u64_max - sample.tx_bytes) i.tx)
          (some (record {
            rx_bytes = (sample.rx_bytes + i.rx) % u64_mod;
            tx_bytes = (sample.tx_bytes + i.tx) % u64_mod;
          }))
]

unfoldable pub add_lines : List Bytes → NetworkSample → Option NetworkSample
add_lines [] sample = some sample
add_lines (line ∷ rest) sample = add_line sample line >>= add_lines rest

abbrev pub no_bytes : NetworkSample
no_bytes = record { rx_bytes = 0; tx_bytes = 0 }

unfoldable pub network_read : Option File → Option NetworkSample
network_read source = do
  file ← source
  sample ← add_lines (lines 512 file) no_bytes
  reject_if (file.read_error || file.close_error) (some sample)

module _ (f : Float) where
  open f use {Double, of_u64, literal, div, le}

  unfoldable pub network_rate : NetworkSample → NetworkSample → Double → Option (Double × Double)
  network_rate prev curr seconds =
      reject_if
        (le seconds (literal 0 1)
          || ltb curr.rx_bytes prev.rx_bytes
          || ltb curr.tx_bytes prev.tx_bytes)
        (some (
          div (of_u64 (curr.rx_bytes - prev.rx_bytes)) seconds,
          div (of_u64 (curr.tx_bytes - prev.tx_bytes)) seconds,
        ))
