-- ===== src/Memory/Usage.antt =====
-- What memory_parse accepts, and memory_usage on it.
use rookietop.Common.{ℕ, ◌+◌, ◌-◌, ◌≤◌, ◌<◌, ◌≡◌, false, Option, none, some, arith, >>=-eq-some}
use rookietop.Libc.Files.{File, lines}
use rookietop.Libc.Float.{Float}
use rookietop.Memory.{
  MemorySample, parse_lines, nothing_found, memory_parse, memory_read, memory_usage,
}

-- A sample that memory_parse accepts has some memory, of which no more is available, and no more
-- swap is free than there is; and the file was read without an error.
pub memory_parse-eq-some :
    (file : File) {s : MemorySample}
    → memory_parse file ≡ some s
    → (0 < s.total_kib)
      × (s.available_kib ≤ s.total_kib)
      × (s.swap_free_kib ≤ s.swap_total_kib)
      × (file.read_error ≡ false)
unfolding memory_parse
memory_parse-eq-some file h =
    let (p, parsed, rest) = >>=-eq-some (parse_lines (lines 256 file) nothing_found) _ h in
    ground arith

module _ (f : Float) where
  open f use {of_u64, literal, mul, div}

  -- On every sample that memory_read returns, memory_usage reports the memory and the swap that
  -- are not available or free, and 100 times the memory over its total; each makes up its total
  -- with what is available or free.
  pub memory_usage-memory_read :
      (source : Option File) {s : MemorySample}
      → memory_read source ≡ some s
      → (used : ℕ) × (swap_used : ℕ) × (memory_usage f s
          ≡ some (div (mul (of_u64 used) (literal 100 1)) (of_u64 s.total_kib), used, swap_used))
        × (used + s.available_kib ≡ s.total_kib)
        × (swap_used + s.swap_free_kib ≡ s.swap_total_kib)
  unfolding memory_read memory_usage
  memory_usage-memory_read none h = cc
  memory_usage-memory_read (some file) {s = s} h =
      let parsed : memory_parse file ≡ some s = ground arith in
      (
        s.total_kib - s.available_kib,
        s.swap_total_kib - s.swap_free_kib,
        ground (arith, memory_parse-eq-some file parsed),
        omega (arith, memory_parse-eq-some file parsed),
        omega (arith, memory_parse-eq-some file parsed),
      )
