-- ===== src/Cpu/RoundTrip.antt =====
-- What cpu_parse_line makes of a line with the counters.
use rookietop.Common.{ℕ, ◌≡◌, List, [], ◌∷◌, ◌++◌, some, arith, replicate}
use rookietop.Libc.Chars.{Bytes, codes, strip_prefix-append}
use rookietop.Libc.Decimal.{EndsNumber}
use rookietop.Libc.Fields.{row, AllU64, scan_fields-row, scan_fields-blanks}
use rookietop.Cpu.{CpuSample, cpu_parse_line}

abbrev pub counters : CpuSample → List ℕ
counters s = s.user ∷ s.nice ∷ s.system ∷ s.idle ∷ s.iowait ∷ s.irq ∷ s.softirq ∷ s.steal ∷ []

-- The eight counters behind `cpu` and `pad` more blanks, and whatever follows them.
unfoldable pub cpu_line : ℕ → CpuSample → Bytes → Bytes
cpu_line pad s rest = codes "cpu" ++ (replicate pad 32 ++ (row (counters s) ++ rest))

-- The line `cpu` with eight 64-bit counters, each behind one blank and the first behind any number of
-- further blanks, and any text behind them that does not go on with a digit, parses to these
-- counters.
pub cpu_parse_line-cpu_line :
    (pad : ℕ) (s : CpuSample) (rest : Bytes)
    → AllU64 (counters s)
    → EndsNumber rest
    → cpu_parse_line (cpu_line pad s rest) ≡ some s
unfolding cpu_parse_line cpu_line
cpu_parse_line-cpu_line pad s rest h e = ground (
  arith,
  strip_prefix-append (codes "cpu") (replicate pad 32 ++ (row (counters s) ++ rest)),
  scan_fields-blanks 8 pad (row (counters s) ++ rest),
  scan_fields-row (counters s) rest h e,
)
