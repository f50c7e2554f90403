-- ===== src/Render/Meters.antt =====
-- The bars, the status words, the uptime and the history of src/main.c.
use rookietop.Common.{
  ℕ, ◌+◌, ◌-◌, ◌/◌, ◌%◌, Bool, ◌||◌, not, List, [], ◌∷◌, ◌++◌, map, ltb, if◌then◌else◌, length,
  take, drop, replicate, get_or, min,
}
use rookietop.Libc.Chars.{Bytes, codes}
use rookietop.Libc.Int.{ℤ, pos, negsuc, pos_part, sub_ℕ, at_least_ℤ, at_most_ℤ, decimal_ℤ}
use rookietop.Libc.Decimal.{decimal}
use rookietop.Libc.Float.{Float}
use rookietop.Diagnosis.{DiagnosisFocus, healthy, cpu, memory, disk, load, at_least}
use rookietop.Overview.{
  Overview, OverallStatus, status_critical, status_attention, status_healthy, load_ratio,
  overall_status,
}
use rookietop.Libc.Format.{printed, pad_right, pad_left, pad_zeros}
use rookietop.Render.{ansi, ansi_reset, ansi_dim, ansi_green, ansi_yellow, ansi_red}
pub mod Widths

-- What overall_status returns.
abbrev pub status_text : OverallStatus → Bytes
status_text status_critical = codes "CRITICAL"
status_text status_attention = codes "ATTENTION"
status_text status_healthy = codes "HEALTHY"

abbrev status_color : OverallStatus → Bytes
status_color status_critical = ansi_red
status_color status_attention = ansi_yellow
status_color status_healthy = ansi_green

unfoldable pub diagnosis_color : DiagnosisFocus → Bytes
diagnosis_color healthy = ansi_green
diagnosis_color disk = ansi_red
diagnosis_color cpu = ansi_yellow
diagnosis_color memory = ansi_yellow
diagnosis_color load = ansi_yellow

abbrev pub levels : Bytes
levels = codes " .:-=+*#%@"

-- The dots of a history before its marks.
unfoldable pub history_padding : ℕ → ℕ → Bytes
history_padding count width =
    let shown = if ltb count width then count else width in replicate (width - shown) b'.'

module _ (f : Float) where
  open f use {Double, literal, add, mul, div, of_int, truncate, fixed, lt}

  unfoldable pub cpu_status : Double → Bytes
  cpu_status usage =
      if at_least f usage 90 1
      then codes "High"
      else if at_least f usage 70 1
      then codes "Busy"
      else codes "Normal"

  unfoldable pub memory_status : Double → Bytes
  memory_status usage =
      if at_least f usage 90 1
      then codes "Attention"
      else if at_least f usage 80 1
      then codes "Busy"
      else codes "Normal"

  unfoldable pub disk_status : Double → Bytes
  disk_status usage =
      if at_least f usage 95 1
      then codes "Critical"
      else if at_least f usage 85 1
      then codes "Attention"
      else codes "Normal"

  unfoldable pub load_status : Overview f → Bytes
  load_status view =
      if at_least f (load_ratio f view) 15 10
      then codes "High"
      else if at_least f (load_ratio f view) 8 10
      then codes "Busy"
      else codes "Light"

  -- The two limits are whole numbers at every call.
  unfoldable pub metric_color : Double → ℕ → ℕ → Bytes
  metric_color usage warn critical =
      if at_least f usage critical 1
      then ansi_red
      else if at_least f usage warn 1
      then ansi_yellow
      else ansi_green

  unfoldable pub overall_color : Overview f → Bytes
  overall_color view = status_color (overall_status f view)

  -- `filled` in print_bar, once it is within 0 and the width.
  unfoldable pub bar_filled : Double → ℕ → ℕ
  bar_filled percent width =
      let filled =
        truncate (add (div (mul percent (of_int (pos width))) (literal 100 1)) (literal 5 10)) in
      pos_part (at_most_ℤ (pos width) (at_least_ℤ (pos 0) filled))

  unfoldable pub format_uptime : Double → ℕ → Bytes
  format_uptime seconds cap = elim (truncate (div seconds (literal 60 1))) [
    | negsuc n ↦ take (cap - 1) (decimal_ℤ (sub_ℕ 0 ((n + 1) % 60)) ++ codes "m")
    | pos total_minutes ↦
        let days = total_minutes / 1440 in
        let hours = (total_minutes / 60) % 24 in
        let minutes = total_minutes % 60 in
        take (cap - 1) (
          if ltb 0 days
          then printed (decimal days ∷ codes "d " ∷ pad_zeros 2 (decimal hours) ∷ codes "h" ∷ [])
          else if ltb 0 hours
          then printed (decimal hours ∷ codes "h " ∷ pad_zeros 2 (decimal minutes) ∷ codes "m" ∷ [])
          else decimal minutes ++ codes "m")
  ]

  -- if (value < 0.0) value = 0.0; if (value > 100.0) value = 100.0;
  abbrev clamp_percent : Double → Double
  clamp_percent value =
      let low = if lt value (literal 0 1) then literal 0 1 else value in
      if lt (literal 100 1) low then literal 100 1 else low

  -- max_level is 9.
  unfoldable pub history_level : Double → ℕ
  history_level value =
      pos_part (truncate (div (mul (clamp_percent value) (of_int (pos 9))) (literal 100 1)))

  -- A 0 stands for a read past the levels.
  abbrev pub history_mark : Double → ℕ
  history_mark value = get_or levels (history_level value) 0

  -- The marks for the last values that the width has room for.
  unfoldable pub history_marks : List Double → ℕ → Bytes
  history_marks values width =
      let count = length values in
      let shown = if ltb count width then count else width in
      map history_mark (drop (count - shown) values)

  module _ (use_color : Bool) where
    unfoldable pub print_bar : Double → ℕ → Bytes → Bytes
    print_bar percent width color =
        let filled = bar_filled percent width in
        printed (
          codes "["
          ∷ ansi use_color color
          ∷ replicate filled b'#'
          ∷ ansi use_color ansi_reset
          ∷ replicate (width - filled) b'.'
          ∷ codes "]"
          ∷ [])

    unfoldable pub print_metric : Bytes → Double → Bytes → Bytes → ℕ → Bytes
    print_metric name percent status color bar_width = printed (
        pad_right 8 name
        ∷ codes " "
        ∷ print_bar percent bar_width color
        ∷ codes " "
        ∷ pad_left 5 (fixed 1 percent)
        ∷ codes "%  "
        ∷ ansi use_color color
        ∷ status
        ∷ ansi use_color ansi_reset
        ∷ [])

    -- `values` are the first `count` values of the array.
    unfoldable pub print_history : Bytes → List Double → ℕ → Bytes → Bytes
    print_history label values width color = printed (
        pad_right 7 label
        ∷ codes " "
        ∷ ansi use_color ansi_dim
        ∷ history_padding (length values) width
        ∷ ansi use_color ansi_reset
        ∷ ansi use_color color
        ∷ history_marks values width
        ∷ ansi use_color ansi_reset
        ∷ [])
