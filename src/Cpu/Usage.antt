-- ===== src/Cpu/Usage.antt =====
-- What cpu_total_delta and cpu_usage return for two samples.
use rookietop.Common.{
  ℕ, ◌+◌, ◌-◌, ◌%◌, ◌≤◌, ◌<◌, ◌≡◌, none, some, arith, ◌==◌, if◌then◌else◌, ◌↔◌, >>=-eq-some,
}
use rookietop.Libc.Numbers.{u64_mod}
use rookietop.Libc.Float.{Float}
use rookietop.Cpu.{CpuSample, Deltas, delta, cpu_deltas, cpu_total_delta, cpu_usage}

-- No counter went back.
pub record Advances (prev curr : CpuSample) : Type 0 where
  pub user : prev.user ≤ curr.user
  pub nice : prev.nice ≤ curr.nice
  pub system : prev.system ≤ curr.system
  pub idle : prev.idle ≤ curr.idle
  pub iowait : prev.iowait ≤ curr.iowait
  pub irq : prev.irq ≤ curr.irq
  pub softirq : prev.softirq ≤ curr.softirq
  pub steal : prev.steal ≤ curr.steal

abbrev pub busy : CpuSample → ℕ
busy s = s.user + s.nice + s.system + s.irq + s.softirq + s.steal

abbrev pub waiting : CpuSample → ℕ
waiting s = s.idle + s.iowait

abbrev pub all_ticks : CpuSample → ℕ
all_ticks s = busy s + waiting s

delta-le : (a b : ℕ) → a ≤ b → delta a b ≡ some (b - a)
unfolding delta
delta-le a b h = ground arith

delta-eq-some : (a b : ℕ) {d : ℕ} → delta a b ≡ some d → (a ≤ b) × (d ≡ b - a)
unfolding delta
delta-eq-some a b h = ground arith

pub cpu_deltas-Advances :
    (prev curr : CpuSample)
    → Advances prev curr
    → cpu_deltas prev curr
      ≡ some (record {
        active = (busy curr - busy prev) % u64_mod;
        inactive = (waiting curr - waiting prev) % u64_mod;
      })
unfolding cpu_deltas
cpu_deltas-Advances prev curr h = ground arith

pub cpu_deltas-eq-some :
    (prev curr : CpuSample) {d : Deltas} → cpu_deltas prev curr ≡ some d → Advances prev curr
unfolding cpu_deltas
cpu_deltas-eq-some prev curr h = ground arith

-- When no counter went back and fewer than 2 ^ 64 ticks passed, cpu_total_delta returns the ticks
-- that passed in all eight counters together, and fails exactly when none did.
pub cpu_total_delta-Advances :
    (prev curr : CpuSample)
    → Advances prev curr
    → all_ticks curr < all_ticks prev + u64_mod
    → cpu_total_delta prev curr
      ≡ (if all_ticks curr == all_ticks prev then none else some (all_ticks curr - all_ticks prev))
unfolding cpu_total_delta
cpu_total_delta-Advances prev curr h small = ground (arith, cpu_deltas-Advances prev curr h)

-- Whenever cpu_total_delta returns a number, no counter went back, and the number is a positive
-- 64-bit one, so that its callers may divide by it.
pub cpu_total_delta-eq-some :
    (prev curr : CpuSample) {t : ℕ}
    → cpu_total_delta prev curr ≡ some t
    → Advances prev curr × (0 < t) × (t < u64_mod)
unfolding cpu_total_delta
cpu_total_delta-eq-some prev curr h =
    let (d, deltas, rest) = >>=-eq-some (cpu_deltas prev curr) _ h in
    (cpu_deltas-eq-some prev curr deltas, ground arith, ground arith)

module _ (f : Float) where
  open f use {of_u64, literal, mul, div}

  -- cpu_usage fails on exactly the samples on which cpu_total_delta fails.
  pub cpu_usage-eq-none_iff :
      (prev curr : CpuSample) → (cpu_usage f prev curr ≡ none) ↔ (cpu_total_delta prev curr ≡ none)
  unfolding cpu_usage cpu_total_delta
  cpu_usage-eq-none_iff prev curr = ground arith

  -- When no counter went back and between 1 and 2 ^ 64 - 1 ticks passed, cpu_usage returns
  -- 100 times the ticks that were not idle or iowait over all ticks, and the former are no more.
  pub cpu_usage-Advances :
      (prev curr : CpuSample)
      → Advances prev curr
      → all_ticks prev < all_ticks curr
      → all_ticks curr < all_ticks prev + u64_mod
      → (cpu_usage f prev curr
          ≡ some (
              div
                (mul (of_u64 (busy curr - busy prev)) (literal 100 1))
                (of_u64 (all_ticks curr - all_ticks prev))))
        × (busy curr - busy prev ≤ all_ticks curr - all_ticks prev)
  unfolding cpu_usage
  cpu_usage-Advances prev curr h some_passed small = ground (arith, cpu_deltas-Advances prev curr h)
