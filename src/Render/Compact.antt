-- ===== src/Render/Compact.antt =====
-- render_compact of src/main.c: the snapshot in lines.
use rookietop.Common.{ℕ, Bool, List, [], ◌∷◌, ◌++◌, if◌then◌else◌}
use rookietop.Libc.Chars.{Bytes, codes}
use rookietop.Libc.Int.{pos}
use rookietop.Libc.Float.{Float}
use rookietop.Diagnosis.{Diagnosis, kib_per_gib, in_units}
use rookietop.Overview.{Overview, overall_status, build_view_diagnosis}
use rookietop.Libc.Format.{printed}
use rookietop.Render.{print_rule, coloured}
use rookietop.Render.Meters.{
  cpu_status, memory_status, disk_status, print_metric, status_text, diagnosis_color,
}
pub mod Plain

abbrev pub rookietop_version : Bytes
rookietop_version = codes "0.1.0-alpha.8"

-- '\n'
abbrev pub newline : Bytes
newline = 10 ∷ []

module _ (f : Float) where
  open f use {Double, of_u64, literal, div, fixed}

  -- BYTES_PER_MIB
  abbrev pub mib_per_sec : Double → Bytes
  mib_per_sec rate = fixed 2 (div rate (literal 1048576 1))

  module _ (use_color : Bool) where
    -- build_view_diagnosis does not fail.
    unfoldable pub print_insight : Overview f → Bytes
    print_insight view =
        let d = build_view_diagnosis f view in
        printed (coloured use_color (diagnosis_color d.focus) d.headline ∷ newline ∷ d.detail ∷ [])

    unfoldable pub render_compact : Overview f → Bytes
    render_compact view =
        let gib = in_units f in
        printed (
          codes "RookieTop "
          ∷ rookietop_version
          ∷ codes "  "
          ∷ status_text (overall_status f view)
          ∷ newline
          ∷ print_rule (pos 64)
          ∷ newline
          ∷ print_metric f use_color (codes "CPU") view.cpu_percent (cpu_status f view.cpu_percent)
              [] 18
          ∷ newline
          ∷ print_metric f use_color (codes "Memory") view.memory_percent
              (memory_status f view.memory_percent) [] 18
          ∷ newline
          ∷ print_metric f use_color (codes "Disk") view.disk_percent
              (disk_status f view.disk_percent) [] 18
          ∷ newline
          ∷ codes "RAM      "
          ∷ gib view.memory_used_kib kib_per_gib
          ∷ codes " / "
          ∷ gib view.memory.total_kib kib_per_gib
          ∷ codes " GiB used | "
          ∷ gib view.memory.available_kib kib_per_gib
          ∷ codes " GiB available"
          ∷ newline
          ∷ (if view.network_ok
              then printed (
                  codes "Network  down "
                  ∷ mib_per_sec view.rx_per_sec
                  ∷ codes " MiB/s | up "
                  ∷ mib_per_sec view.tx_per_sec
                  ∷ codes " MiB/s"
                  ∷ newline
                  ∷ [])
              else [])
          ∷ newline
          ∷ codes "What RookieTop notices"
          ∷ newline
          ∷ print_insight view
          ∷ newline
          ∷ newline
          ∷ codes
              "Run RookieTop in a terminal and press ? when you want the deeper Linux explanation."
          ∷ newline
          ∷ [])
