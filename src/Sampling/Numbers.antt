-- ===== src/Sampling/Numbers.antt =====
-- The numbers of collect_overview, which do not depend on the host, the network, the clock, and the
-- process tables.
use mathlib.Core.Path.{subst}
use mathlib.Core.Option.{some-injective}
use mathlib.Core.Option as Option
use rookietop.Common.{
  ℕ, ◌+◌, ◌<◌, ◌≡◌, Bool, not, Option, none, some, ◌>>=◌, reject_if, >>=-elim, arith, map->>=, ap,
  ◌∙◌, sym,
}
use rookietop.Libc.Float.{Float}
use rookietop.Libc.Files.{File}
use rookietop.Cpu.{cpu_read, cpu_usage, cpu_total_delta}
use rookietop.Memory.{MemorySample, memory_read, memory_usage}
use rookietop.Memory.Usage.{memory_usage-memory_read, memory_parse-eq-some}
use rookietop.Disk.{DiskSample, Statvfs, disk_read_root, disk_usage}
use rookietop.Disk.Capacity.{disk_usage-disk_read_root, disk_read_root-eq-some}
use rookietop.Overview.{Overview}
use rookietop.Sampling.{
  with_numbers, Sources, Sorts, collect_overview, with_host, with_network, with_cpu_top,
  with_memory_top,
}

module _ (f : Float) where
  open f use {Double, of_u64, literal, mul, div}

  pub record Numbers : Type 0 where
    pub memory : MemorySample
    pub disk : DiskSample
    pub cpu_percent : Double
    pub memory_percent : Double
    pub disk_percent : Double
    pub memory_used_kib : ℕ
    pub swap_used_kib : ℕ
    pub disk_used_bytes : ℕ

  abbrev pub numbers_of : Overview f → Numbers
  numbers_of view = record {
    memory = view.memory;
    disk = view.disk;
    cpu_percent = view.cpu_percent;
    memory_percent = view.memory_percent;
    disk_percent = view.disk_percent;
    memory_used_kib = view.memory_used_kib;
    swap_used_kib = view.swap_used_kib;
    disk_used_bytes = view.disk_used_bytes;
  }

  -- The numbers that a sample needs, from what it needs them from.
  unfoldable pub required :
      Option File → Option Statvfs → Option File → Bool → Option File → Option Numbers
  required meminfo root cpu_before wait_ok cpu_after = do
    memory ← memory_read meminfo
    disk ← disk_read_root root
    cpu_prev ← cpu_read cpu_before
    _ ← reject_if (not wait_ok) (some (tt {0}))
    cpu_curr ← cpu_read cpu_after
    cpu_percent ← cpu_usage f cpu_prev cpu_curr
    _ ← cpu_total_delta cpu_prev cpu_curr
    (memory_percent, memory_used, swap_used) ← memory_usage f memory
    (disk_percent, disk_used) ← disk_usage f disk
    some (record {
      memory = memory;
      disk = disk;
      cpu_percent = cpu_percent;
      memory_percent = memory_percent;
      disk_percent = disk_percent;
      memory_used_kib = memory_used;
      swap_used_kib = swap_used;
      disk_used_bytes = disk_used;
    })

  numbers_of-optional :
      (sorts : Sorts f) (sources : Sources) (ticks : ℕ) (view : Overview f)
      → numbers_of (
          with_memory_top f sources (
            with_cpu_top f sorts sources ticks (with_network f sources (with_host f sources view))))
        ≡ numbers_of view
  numbers_of-optional sorts sources ticks view = ground arith

  -- A sample fails exactly when one of the numbers that it needs cannot be had from /proc/meminfo,
  -- the root file system, the two readings of /proc/stat, or the wait between them; otherwise it
  -- has these numbers, whatever the host, the network, the clock, and the process tables do.
  pub collect_overview-required :
      (sorts : Sorts f) (sources : Sources)
      → Option.map numbers_of (collect_overview f sorts sources)
        ≡ required sources.meminfo sources.root sources.cpu_before sources.wait_ok sources.cpu_after
  unfolding collect_overview required
  collect_overview-required sorts sources =
      map->>= numbers_of (memory_read sources.meminfo) _ _ (λ memory _.
        map->>= numbers_of (disk_read_root sources.root) _ _ (λ disk _.
          map->>= numbers_of (cpu_read sources.cpu_before) _ _ (λ cpu_prev _.
            map->>= numbers_of (reject_if (not sources.wait_ok) (some (tt {0}))) _ _ (λ waited _.
              map->>= numbers_of (cpu_read sources.cpu_after) _ _ (λ cpu_curr _.
                map->>= numbers_of (cpu_usage f cpu_prev cpu_curr) _ _ (λ cpu_percent _.
                  map->>= numbers_of (cpu_total_delta cpu_prev cpu_curr) _ _ (λ ticks _.
                    map->>= numbers_of (memory_usage f memory) _ _ (λ memory_part _.
                      map->>= numbers_of (disk_usage f disk) _ _ (λ disk_part _. ap some (
                        numbers_of-optional sorts sources ticks
                          (with_numbers f memory disk cpu_percent memory_part disk_part)))))))))))

  -- Both parts of the memory, of the swap and of the root file system make up its total, and the
  -- totals of the memory and of the file system are positive.
  pub record IsConsistent (n : Numbers) : Type 0 where
    pub some_memory : 0 < n.memory.total_kib
    pub memory_parts : n.memory_used_kib + n.memory.available_kib ≡ n.memory.total_kib
    pub swap_parts : n.swap_used_kib + n.memory.swap_free_kib ≡ n.memory.swap_total_kib
    pub some_disk : 0 < n.disk.total_bytes
    pub disk_parts : n.disk_used_bytes + n.disk.available_bytes ≡ n.disk.total_bytes
    pub memory_share :
        n.memory_percent
        ≡ div (mul (of_u64 n.memory_used_kib) (literal 100 1)) (of_u64 n.memory.total_kib)
    pub disk_share :
        n.disk_percent
        ≡ div (mul (of_u64 n.disk_used_bytes) (literal 100 1)) (of_u64 n.disk.total_bytes)

  memory_read-total :
      (source : Option File) {s : MemorySample} → memory_read source ≡ some s → 0 < s.total_kib
  unfolding memory_read
  memory_read-total none h = cc
  memory_read-total (some file) {s} h = (memory_parse-eq-some file {s = s} (ground arith)).0

  disk_read_root-total :
      (source : Option Statvfs) {s : DiskSample}
      → disk_read_root source ≡ some s
      → 0 < s.total_bytes
  disk_read_root-total none h = unfold disk_read_root in cc
  disk_read_root-total (some fs) h = (disk_read_root-eq-some fs h).2

  required-IsConsistent :
      (meminfo : Option File) (root : Option Statvfs) (cpu_before : Option File) (wait_ok : Bool)
      (cpu_after : Option File) {n : Numbers}
      → required meminfo root cpu_before wait_ok cpu_after ≡ some n
      → IsConsistent n
  unfolding required
  required-IsConsistent meminfo root cpu_before wait_ok cpu_after {n} h =
      >>=-elim (memory_read meminfo) _ h (λ memory read_memory h1.
        >>=-elim (disk_read_root root) _ h1 (λ disk read_disk h2.
          >>=-elim (cpu_read cpu_before) _ h2 (λ cpu_prev _ h3.
            >>=-elim (reject_if (not wait_ok) (some (tt {0}))) _ h3 (λ waited _ h4.
              >>=-elim (cpu_read cpu_after) _ h4 (λ cpu_curr _ h5.
                >>=-elim (cpu_usage f cpu_prev cpu_curr) _ h5 (λ cpu_percent _ h6.
                  >>=-elim (cpu_total_delta cpu_prev cpu_curr) _ h6 (λ ticks _ h7.
                    >>=-elim (memory_usage f memory) _ h7 (λ memory_part used_memory h8.
                      >>=-elim (disk_usage f disk) _ h8 (λ disk_part used_disk h9.
                        subst IsConsistent (some-injective _ n h9) (record {
                          some_memory = memory_read-total meminfo read_memory;
                          memory_parts =
                              ground (arith, memory_usage-memory_read f meminfo read_memory);
                          swap_parts =
                              ground (arith, memory_usage-memory_read f meminfo read_memory);
                          some_disk = disk_read_root-total root read_disk;
                          disk_parts = ground (arith, disk_usage-disk_read_root f root read_disk);
                          memory_share =
                              ground (arith, memory_usage-memory_read f meminfo read_memory);
                          disk_share = ground (arith, disk_usage-disk_read_root f root read_disk);
                        }))))))))))

  -- In every sample, the used and the available memory make up the total memory, which is not 0;
  -- so do the swap and the root file system; and the percentages are those of the used parts.
  pub collect_overview-IsConsistent :
      (sorts : Sorts f) (sources : Sources) {view : Overview f}
      → collect_overview f sorts sources ≡ some view
      → IsConsistent (numbers_of view)
  collect_overview-IsConsistent sorts sources h =
      required-IsConsistent sources.meminfo sources.root sources.cpu_before sources.wait_ok
        sources.cpu_after
        (sym (collect_overview-required sorts sources) ∙ ap (Option.map numbers_of) h)
