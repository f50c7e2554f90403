-- ===== src/Network/Totals.antt =====
-- The totals that network_read returns.
use rookietop.Common.{
  ℕ, ◌+◌, ◌≤◌, ◌≡◌, false, ◌&&◌, Option, none, some, leb, if◌then◌else◌, List, [], ◌∷◌, arith,
}
use rookietop.Libc.Chars.{Bytes, codes, str_eq}
use rookietop.Libc.Numbers.{u64_max}
use rookietop.Network.{
  NetworkSample, network_parse_line, add_line, add_lines, no_bytes, network_read,
}
use rookietop.Libc.Files.{File, lines}

-- What a line counts for: nothing unless it is a row of another interface than `lo`.
pub counted : Bytes → NetworkSample
counted line = elim (network_parse_line line 64) [
  | none ↦ no_bytes
  | some i ↦
      if str_eq i.name (codes "lo") then no_bytes else record { rx_bytes = i.rx; tx_bytes = i.tx }
]

pub received : List Bytes → ℕ
received [] = 0
received (line ∷ rest) = (counted line).rx_bytes + received rest

pub sent : List Bytes → ℕ
sent [] = 0
sent (line ∷ rest) = (counted line).tx_bytes + sent rest

-- The sample with a line's bytes added, if both sums fit in 64 bits.
abbrev pub fitting : ℕ → ℕ → Option NetworkSample
fitting rx tx =
    if leb rx u64_max && leb tx u64_max
    then some (record { rx_bytes = rx; tx_bytes = tx })
    else none

add_line_exact :
    (line : Bytes) (s : NetworkSample)
    → s.rx_bytes ≤ u64_max
    → s.tx_bytes ≤ u64_max
    → add_line s line
      ≡ fitting (s.rx_bytes + (counted line).rx_bytes) (s.tx_bytes + (counted line).tx_bytes)
unfolding add_line counted
add_line_exact line s h k = ground arith

add_lines_exact :
    (ls : List Bytes) (s : NetworkSample)
    → s.rx_bytes ≤ u64_max
    → s.tx_bytes ≤ u64_max
    → add_lines ls s ≡ fitting (s.rx_bytes + received ls) (s.tx_bytes + sent ls)
unfolding add_lines received sent
add_lines_exact [] s h k = ground arith
add_lines_exact (line ∷ rest) s h k = ground (
  arith,
  add_line_exact line s h k,
  add_lines_exact rest (record {
    rx_bytes = s.rx_bytes + (counted line).rx_bytes;
    tx_bytes = s.tx_bytes + (counted line).tx_bytes;
  }),
)

-- From a file that is read and closed without an error, network_read returns the sums of the
-- received and of the sent bytes over all rows but those of `lo` and those it cannot parse, and it
-- fails exactly when one of the sums does not fit in 64 bits.
pub network_read_exact :
    (file : File)
    → file.read_error ≡ false
    → file.close_error ≡ false
    → network_read (some file) ≡ fitting (received (lines 512 file)) (sent (lines 512 file))
unfolding network_read
network_read_exact file h k =
    ground (arith, add_lines_exact (lines 512 file) no_bytes (omega arith) (omega arith))
