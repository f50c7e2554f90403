-- ===== src/Host.antt =====
-- src/host.c: the name and the kernel of the machine, its uptime and load, and its temperature.
use rookietop.Common.{
  ℕ, ◌+◌, Bool, true, false, ◌&&◌, ◌||◌, not, ◌-◌, List, [], ◌∷◌, ◌++◌, Option, none, some, ltb,
  leb, ◌==◌, if◌then◌else◌, ◌>>=◌, reject_if, length, take,
}
use rookietop.Libc.Chars.{Bytes, codes, starts_with, take_until, is_line_end}
use rookietop.Libc.Numbers.{Converted, strtol}
use rookietop.Libc.Files.{File, lines}
use rookietop.Libc.Float.{Float}
pub mod Thermal
pub mod Read

-- HOST_NAME_MAX, HOST_KERNEL_MAX and HOST_THERMAL_TYPE_MAX
abbrev pub host_text_max : ℕ
host_text_max = 64

-- What host_read asks of the machine. `none` stands for a call that fails; a number of cores that
-- is not positive is 0.
pub record Machine : Type 0 where
  pub gethostname : Option Bytes
  pub uname_release : Option Bytes
  pub cores : ℕ
  pub uptime : Option File
  pub loadavg : Option File
  -- the names in /sys/class/thermal, and the files below it
  pub thermal_dir : Option (List Bytes)
  pub open_file : Bytes → Option File

-- Both directories of a zone have this prefix.
abbrev pub zone_path : Bytes → Bytes → Bytes
zone_path zone leaf = codes "/sys/class/thermal/" ++ (zone ++ (b'/' ∷ leaf))

-- What read_first_line returns, and the C string that `out` holds then.
pub record FirstLine : Type 0 where
  pub succeeded : Bool
  pub array : Bytes

-- A first fgets that reads nothing leaves the array as it was.
unfoldable pub read_opened : File → ℕ → Bytes → FirstLine
read_opened file cap out = elim (lines cap file) [
  | [] ↦ record { succeeded = false; array = out }
  | line ∷ more ↦
      let text = take_until is_line_end line in
      if file.close_error
      then record { succeeded = false; array = line }
      else record { succeeded = not (length text == 0); array = text }
]

-- `out` is the C string that the array holds before.
unfoldable pub read_first_line : (Bytes → Option File) → Bytes → ℕ → Bytes → FirstLine
read_first_line open_file path cap out = elim (open_file path) [
  | none ↦ record { succeeded = false; array = out }
  | some file ↦ read_opened file cap out
]

module _ (f : Float) where
  open f use {Double, of_u64, literal, negate, div, lt, le, scan}

  pub record HostInfo : Type 0 where
    pub hostname : Bytes
    pub kernel_release : Bytes
    pub thermal_type : Bytes
    pub cores : ℕ
    pub uptime_seconds : Double
    pub load1 : Double
    pub load5 : Double
    pub load15 : Double
    pub thermal_c : Double
    pub thermal_ok : Bool

  unfoldable pub host_parse_uptime : File → Option Double
  host_parse_uptime file = do
    (uptime, rest) ← scan file.content
    reject_if (lt uptime (literal 0 1)) (some uptime)

  unfoldable pub host_parse_loadavg : File → Option (Double × Double × Double)
  host_parse_loadavg file = do
    (load1, rest1) ← scan file.content
    (load5, rest5) ← scan rest1
    (load15, rest15) ← scan rest5
    reject_if (lt load1 (literal 0 1) || lt load5 (literal 0 1) || lt load15 (literal 0 1))
        (some (load1, load5, load15))

  -- The hottest zone so far.
  pub record Hottest : Type 0 where
    pub hottest : Double
    pub hottest_type : Bytes

  -- (double)millidegrees / 1000.0
  abbrev pub degrees : ℕ → Double
  degrees millidegrees = div (of_u64 millidegrees) (literal 1000 1)

  -- The millidegrees of a directory entry, if the loop does not `continue` before it compares.
  unfoldable pub read_zone : (Bytes → Option File) → Bytes → Option ℕ
  read_zone open_file entry = do
    _ ← reject_if (not (starts_with entry (codes "thermal_zone"))) (some (tt {0}))
    let temp_path = zone_path entry (codes "temp")
    let type_path = zone_path entry (codes "type")
    _ ← reject_if (leb 256 (length temp_path) || leb 256 (length type_path)) (some (tt {0}))
    let temp_line = read_first_line open_file temp_path 128 []
    _ ← reject_if (not temp_line.succeeded) (some (tt {0}))
    let r = strtol temp_line.array
    reject_if
        (r.range_error
          || not (length r.rest == 0)
          || (r.negative && not (r.magnitude == 0))
          || ltb 200000 r.magnitude)
        (some r.magnitude)

  -- `char type[64] = "thermal"; (void)read_first_line(…);`: what `type` holds then.
  unfoldable pub zone_type : (Bytes → Option File) → Bytes → Bytes
  zone_type open_file entry =
      (read_first_line open_file (zone_path entry (codes "type")) 64 (codes "thermal")).array

  -- One round of the loop over the directory.
  unfoldable pub offer_zone : (Bytes → Option File) → Hottest → Bytes → Hottest
  offer_zone open_file h entry = elim (read_zone open_file entry) [
    | none ↦ h
    | some millidegrees ↦
        let temperature = degrees millidegrees in
        if le temperature h.hottest
        then h
        else record { hottest = temperature; hottest_type = zone_type open_file entry }
  ]

  unfoldable pub read_zones : (Bytes → Option File) → Hottest → List Bytes → Hottest
  read_zones open_file h [] = h
  read_zones open_file h (entry ∷ entries) =
      read_zones open_file (offer_zone open_file h entry) entries

  -- hottest = -1.0, hottest_type = {0}
  abbrev pub no_zone : Hottest
  no_zone = record { hottest = negate (literal 1 1); hottest_type = [] }

  unfoldable pub read_thermal : Machine → HostInfo → HostInfo
  read_thermal machine out = elim machine.thermal_dir [
    | none ↦ out
    | some entries ↦
        let h = read_zones machine.open_file no_zone entries in
        if le (literal 0 1) h.hottest
        then record out { thermal_ok = true; thermal_c = h.hottest; thermal_type = h.hottest_type }
        else out
  ]

  -- fclose fails after the file is parsed, or does not.
  abbrev pub closed {ℓ} : {A : Type ℓ} → File → Option A → Option A
  closed file result = if file.close_error then none else result

  unfoldable pub read_uptime : Option File → Option Double
  read_uptime none = none
  read_uptime (some file) = closed file (host_parse_uptime file)

  unfoldable pub read_loadavg : Option File → Option (Double × Double × Double)
  read_loadavg none = none
  read_loadavg (some file) = closed file (host_parse_loadavg file)

  -- The members but the temperature.
  abbrev pub host_base : Machine → Bytes → Bytes → Double → Double × Double × Double → HostInfo
  host_base machine hostname release uptime (load1, load5, load15) = record {
    hostname = take (host_text_max - 1) hostname;
    kernel_release = take (host_text_max - 1) release;
    thermal_type = [];
    cores = machine.cores;
    uptime_seconds = uptime;
    load1 = load1;
    load5 = load5;
    load15 = load15;
    thermal_c = literal 0 1;
    thermal_ok = false;
  }

  unfoldable pub host_read : Machine → Option HostInfo
  host_read machine = do
    hostname ← machine.gethostname
    release ← machine.uname_release
    _ ← reject_if (ltb machine.cores 1) (some (tt {0}))
    uptime ← read_uptime machine.uptime
    loads ← read_loadavg machine.loadavg
    some (read_thermal machine (host_base machine hostname release uptime loads))
