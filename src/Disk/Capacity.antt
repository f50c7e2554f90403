-- ===== src/Disk/Capacity.antt =====
-- The sizes that disk_read_root reports, and disk_usage on them.
use rookietop.Common.{
  ℕ, zero, suc, ◌+◌, ◌-◌, ◌*◌, ◌/◌, ◌≤◌, ◌<◌, ◌≡◌, ◌||◌, not, Option, none, some, ltb, ◌==◌,
  if◌then◌else◌, arith,
}
use rookietop.Libc.Numbers.{u64_max}
use rookietop.Libc.Float.{Float}
use rookietop.Disk.{DiskSample, Statvfs, blocks_to_bytes, disk_read_root, disk_usage}

-- The test by division says whether the product exceeds the limit.
lt-div_iff : (m b s : ℕ) → 0 < b → ltb (m / b) s ≡ ltb m (b * s)
lt-div_iff m b s h = grind arith

-- blocks_to_bytes fails for a block size of 0 and for a product that does not fit in 64 bits, and
-- otherwise returns the product itself.
pub blocks_to_bytes_exact :
    (blocks block_size : ℕ)
    → blocks_to_bytes blocks block_size ≡ (
        if block_size == 0 || ltb u64_max (blocks * block_size)
        then none
        else some (blocks * block_size))
unfolding blocks_to_bytes
blocks_to_bytes_exact zero block_size = ground arith
blocks_to_bytes_exact (suc k) block_size =
    ground (arith, lt-div_iff u64_max (suc k) block_size (omega arith))

-- A sample that disk_read_root returns has a positive total of at most 2 ^ 64 - 1 bytes, of which
-- no more are available: both are exactly the blocks times the block size.
pub disk_read_root-eq-some :
    (fs : Statvfs) {s : DiskSample}
    → disk_read_root (some fs) ≡ some s
    → let size = if not (fs.f_frsize == 0) then fs.f_frsize else fs.f_bsize in
      (s.total_bytes ≡ fs.f_blocks * size)
      × (s.available_bytes ≡ fs.f_bavail * size)
      × (0 < s.total_bytes)
      × (s.available_bytes ≤ s.total_bytes)
      × (s.total_bytes ≤ u64_max)
unfolding disk_read_root
disk_read_root-eq-some fs h =
    let size = if not (fs.f_frsize == 0) then fs.f_frsize else fs.f_bsize in
    ground (arith, blocks_to_bytes_exact fs.f_blocks size, blocks_to_bytes_exact fs.f_bavail size)

module _ (f : Float) where
  open f use {of_u64, literal, mul, div}

  -- On every sample that disk_read_root returns, disk_usage reports the bytes that are not
  -- available, and 100 times these over the total; they make up the total with the available ones.
  pub disk_usage-disk_read_root :
      (source : Option Statvfs) {s : DiskSample}
      → disk_read_root source ≡ some s
      → (used : ℕ) × (disk_usage f s
          ≡ some (div (mul (of_u64 used) (literal 100 1)) (of_u64 s.total_bytes), used))
        × (used + s.available_bytes ≡ s.total_bytes)
  unfolding disk_usage disk_read_root
  disk_usage-disk_read_root none h = cc
  disk_usage-disk_read_root (some fs) {s = s} h = (
    s.total_bytes - s.available_bytes,
    ground (arith, disk_read_root-eq-some fs h),
    omega (arith, disk_read_root-eq-some fs h),
  )
