-- ===== src/Disk.antt =====
-- src/disk.c: the capacity of the root filesystem.
use rookietop.Common.{
  ℕ, ◌+◌, ◌-◌, ◌*◌, ◌/◌, ◌%◌, ◌≡◌, Bool, true, false, ◌&&◌, ◌||◌, not, Option, none, some, ltb,
  ◌==◌, if◌then◌else◌, ◌>>=◌, reject_if,
}
use rookietop.Libc.Numbers.{u64_mod, u64_max}
use rookietop.Libc.Float.{Float}
pub mod Capacity

pub record DiskSample : Type 0 where
  pub total_bytes : ℕ
  pub available_bytes : ℕ

-- The fields of `struct statvfs` that the program reads.
pub record Statvfs : Type 0 where
  pub f_frsize : ℕ
  pub f_bsize : ℕ
  pub f_blocks : ℕ
  pub f_bavail : ℕ

unfoldable pub blocks_to_bytes : ℕ → ℕ → Option ℕ
blocks_to_bytes blocks block_size =
    reject_if (block_size == 0 || (not (blocks == 0) && ltb (u64_max / blocks) block_size))
      (some (blocks * block_size % u64_mod))

-- The argument is what statvfs("/") gives, `none` if it fails.
unfoldable pub disk_read_root : Option Statvfs → Option DiskSample
disk_read_root source = do
  fs ← source
  let block_size = if not (fs.f_frsize == 0) then fs.f_frsize else fs.f_bsize
  total ← blocks_to_bytes fs.f_blocks block_size
  available ← blocks_to_bytes fs.f_bavail block_size
  reject_if (total == 0 || ltb total available)
      (some (record { total_bytes = total; available_bytes = available }))

module _ (f : Float) where
  open f use {Double, of_u64, literal, mul, div}

  -- The percentage and the bytes in use.
  unfoldable pub disk_usage : DiskSample → Option (Double × ℕ)
  disk_usage sample =
      let used = sample.total_bytes - sample.available_bytes in
      reject_if (sample.total_bytes == 0 || ltb sample.total_bytes sample.available_bytes)
        (some (div (mul (of_u64 used) (literal 100 1)) (of_u64 sample.total_bytes), used))
