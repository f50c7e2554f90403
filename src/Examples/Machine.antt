-- ===== src/Examples/Machine.antt =====
-- The host, the diagnosis and the status of a machine.
use rookietop.Common.{
  ℕ, ◌+◌, ◌-◌, ◌*◌, ◌/◌, ◌<◌, ◌≡◌, ◌⊎◌, refl, true, [], ◌∷◌, Option, none, some, arith, length, ltb,
  leb, if◌then◌else◌,
}
use rookietop.Libc.Chars.{Bytes, codes, str_eq, starts_with, take_until, is_line_end, c_string}
use rookietop.Libc.Int.{pos, pos_part}
use rookietop.Libc.Decimal.{decimal, digits_below}
use rookietop.Libc.Numbers.{conversions, number}
use rookietop.Libc.Files.{File, lines, fgets_loop}
use rookietop.Libc.Float.{Float, IsOrdered}
use rookietop.Host.{
  zone_type, read_opened, Machine, HostInfo, Hottest, host_read, read_uptime, read_loadavg,
  host_parse_uptime, host_parse_loadavg, read_thermal, read_zones, offer_zone, read_zone,
  read_first_line, host_base,
}
use rookietop.Host.Thermal.{NoZones, CoversAll, IsOneOf, read_thermal-IsOneOf}
use rookietop.Diagnosis.{DiagnosisInput, healthy, headline_text, diagnosis_build}
use rookietop.Diagnosis.Whole.{IsPrintable, detail_text, diagnosis_build-whole}
use rookietop.Overview.{no_host, overall_status, build_view_diagnosis, load_ratio, status_attention}
use rookietop.Overview.Verdict.{overall_status-healthy}
use rookietop.Examples.Data.{naturals, good_file, quiet_view}

overall_status-healthy_example :
    (overall_status naturals quiet_view ≡ status_attention)
    × ((build_view_diagnosis naturals quiet_view).focus ≡ healthy)
unfolding load_ratio
overall_status-healthy_example = overall_status-healthy naturals quiet_view refl refl refl refl refl

-- One zone at 45 degrees.
abbrev open_zone : Bytes → Option File
open_zone path =
    if str_eq path (codes "/sys/class/thermal/thermal_zone0/temp")
    then some (good_file "45000\n")
    else none

abbrev machine : Machine
machine = record {
  gethostname = some (codes "box");
  uname_release = some (codes "6.1");
  cores = 4;
  uptime = some (good_file "500 900\n");
  loadavg = some (good_file "1 2 3 1/99 7\n");
  thermal_dir = some (codes "cooling_device0" ∷ codes "thermal_zone0" ∷ []);
  open_file = open_zone;
}

abbrev base : HostInfo naturals
base = host_base naturals machine (codes "box") (codes "6.1") 500 (1, 2, 3)

host_runs : host_read naturals machine ≡ some (read_thermal naturals machine base)
unfolding host_read read_uptime read_loadavg host_parse_uptime host_parse_loadavg conversions
host_runs = refl

-- Whole numbers from -1 on in place of doubles, each one more than it stands for.
abbrev shifted : Float
shifted = record {
  Double = ℕ;
  of_u64 = λ n. n + 1;
  literal = λ n d. n / d + 1;
  negate = λ a. 2 - a;
  add = λ a b. a + b - 1;
  mul = λ a b. (a - 1) * (b - 1) + 1;
  div = λ a b. (a - 1) / (b - 1) + 1;
  of_int = λ a. pos_part a + 1;
  truncate = λ a. pos (a - 1);
  scan = number;
  fixed = λ n a. decimal (a - 1);
  lt = ltb;
  le = leb;
}

shifted-IsOrdered : IsOrdered shifted
shifted-IsOrdered = record {
  total = λ a b h k. ground arith;
  trans = λ a b c h k. ground arith;
  le_numbers = λ a b h. ground arith;
  lt_numbers = λ a b h. ground arith;
}

read_thermal-IsOneOf_example :
    let entries = codes "cooling_device0" ∷ codes "thermal_zone0" ∷ [] in
    (NoZones shifted open_zone entries
      × (read_thermal shifted machine (no_host shifted) ≡ no_host shifted))
    ⊎ ((h : Hottest shifted) × IsOneOf shifted open_zone h entries
        × CoversAll shifted open_zone h.hottest entries
        × (read_thermal shifted machine (no_host shifted) ≡ record (no_host shifted) {
          thermal_ok = true;
          thermal_c = h.hottest;
          thermal_type = h.hottest_type;
        }))
read_thermal-IsOneOf_example =
    read_thermal-IsOneOf shifted shifted-IsOrdered machine (no_host shifted)
      (codes "cooling_device0" ∷ codes "thermal_zone0" ∷ []) refl (λ m. ground arith)
      (λ m. ground arith) refl refl

thermal_runs : (read_thermal shifted machine (no_host shifted)).thermal_c ≡ 46
unfolding read_thermal read_zones offer_zone read_zone read_first_line read_opened lines fgets_loop
    c_string take_until is_line_end starts_with str_eq conversions
thermal_runs = refl

-- A type file with an empty first line leaves no name, and one that cannot be opened the default.
abbrev open_empty : Bytes → Option File
open_empty path = some (good_file "\n")

abbrev open_none : Bytes → Option File
open_none path = none

empty_type : zone_type naturals open_empty (codes "thermal_zone0") ≡ []
unfolding zone_type read_first_line read_opened lines fgets_loop c_string take_until is_line_end
empty_type = refl

no_type : zone_type naturals open_none (codes "thermal_zone0") ≡ codes "thermal"
unfolding zone_type read_first_line
no_type = refl

abbrev full_disk : DiagnosisInput naturals
full_disk = record {
  cpu_percent = 4;
  memory_percent = 40;
  disk_percent = 97;
  load_ratio = 0;
  memory_available_kib = 5000000;
  disk_available_bytes = 3000000000;
  top_cpu_name = none;
  top_cpu_percent = 0;
  top_memory_name = some (codes "sh");
  top_memory_kib = 512;
}

full_disk-IsPrintable : IsPrintable naturals full_disk
unfolding decimal digits_below
full_disk-IsPrintable = record {
  available_kib = omega arith;
  available_bytes = omega arith;
  largest_kib = omega arith;
  busiest = omega arith;
  memory_name = omega arith;
  cpu_name = omega arith;
}

diagnosis_build-whole_example :
    let d = diagnosis_build naturals full_disk in
    (d.headline ≡ headline_text d.focus)
    × (d.detail ≡ detail_text naturals full_disk d.focus)
    × (length d.headline < 128)
    × (length d.detail < 256)
diagnosis_build-whole_example = diagnosis_build-whole naturals full_disk full_disk-IsPrintable
