-- ===== src/Cpu.antt =====
-- src/cpu.c: the counters of /proc/stat, and what two samples of them say of CPU usage.
use rookietop.Common.{
  ℕ, ◌+◌, ◌-◌, ◌*◌, ◌%◌, ◌≡◌, refl, Bool, true, false, List, [], ◌∷◌, ◌++◌, Option, none, some,
  arith, ltb, ◌==◌, if◌then◌else◌, ◌>>=◌, reject_if, length, get_or,
}
use rookietop.Libc.Chars.{Bytes, codes, strip_prefix}
use rookietop.Libc.Numbers.{scan_fields, u64_mod}
use rookietop.Libc.Files.{File, first_line}
use rookietop.Libc.Float.{Float}
pub mod Usage
pub mod RoundTrip

pub record CpuSample : Type 0 where
  pub user : ℕ
  pub nice : ℕ
  pub system : ℕ
  pub idle : ℕ
  pub iowait : ℕ
  pub irq : ℕ
  pub softirq : ℕ
  pub steal : ℕ

-- sscanf stores what it converts, in order; a field that it does not reach keeps its 0.
abbrev pub sample_of : List ℕ → CpuSample
sample_of fields = record {
  user = get_or fields 0 0;
  nice = get_or fields 1 0;
  system = get_or fields 2 0;
  idle = get_or fields 3 0;
  iowait = get_or fields 4 0;
  irq = get_or fields 5 0;
  softirq = get_or fields 6 0;
  steal = get_or fields 7 0;
}

unfoldable pub cpu_parse_line : Bytes → Option CpuSample
cpu_parse_line line = do
  rest ← strip_prefix (codes "cpu") line
  let fields = scan_fields 8 rest
  reject_if (ltb (length fields) 4) (some (sample_of fields))

-- `none` stands for a file that cannot be opened.
unfoldable pub cpu_read : Option File → Option CpuSample
cpu_read source = do file ← source; line ← first_line 512 file; cpu_parse_line line

unfoldable pub delta : ℕ → ℕ → Option ℕ
delta prev curr = reject_if (ltb curr prev) (some (curr - prev))

pub record Deltas : Type 0 where
  pub active : ℕ
  pub inactive : ℕ

unfoldable pub cpu_deltas : CpuSample → CpuSample → Option Deltas
unfolding delta
cpu_deltas prev curr = do
  user ← delta prev.user curr.user
  nice ← delta prev.nice curr.nice
  system ← delta prev.system curr.system
  idle ← delta prev.idle curr.idle
  iowait ← delta prev.iowait curr.iowait
  irq ← delta prev.irq curr.irq
  softirq ← delta prev.softirq curr.softirq
  steal ← delta prev.steal curr.steal
  some (record {
    active = (user + nice + system + irq + softirq + steal) % u64_mod;
    inactive = (idle + iowait) % u64_mod;
  })

unfoldable pub cpu_total_delta : CpuSample → CpuSample → Option ℕ
cpu_total_delta prev curr = do
  d ← cpu_deltas prev curr
  let total = (d.active + d.inactive) % u64_mod
  reject_if (total == 0) (some total)

module _ (f : Float) where
  open f use {Double, of_u64, literal, mul, div}

  unfoldable pub cpu_usage : CpuSample → CpuSample → Option Double
  cpu_usage prev curr = do
    d ← cpu_deltas prev curr
    let total = (d.active + d.inactive) % u64_mod
    reject_if (total == 0) (some (div (mul (of_u64 d.active) (literal 100 1)) (of_u64 total)))
