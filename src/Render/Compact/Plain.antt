-- ===== src/Render/Compact/Plain.antt =====
-- The snapshot without colours starts no escape sequence.
use rookietop.Common.{ℕ, ◌-◌, false, refl, [], ◌∷◌, if◌then◌else◌, length, Bool-cases, inl, inr}
use rookietop.Libc.Chars.{Bytes, codes}
use rookietop.Libc.Float.{Float}
use rookietop.Overview.{Overview, overall_status, diagnosis_input, build_view_diagnosis}
use rookietop.Libc.Format.{printed, pad_right}
use rookietop.Render.{print_rule}
use rookietop.Render.Meters.{bar_filled, print_bar, print_metric}
use rookietop.Render.Compact.{newline, mib_per_sec, print_insight, render_compact}
use rookietop.Render.Plain.{
  IsPlain, is_plain, printed-IsPlain, plain, ◌&◌, no_more, IsPlain-append, IsPlain-replicate,
  status_text-IsPlain, cpu_status-IsPlain, memory_status-IsPlain, disk_status-IsPlain,
  diagnosis_build-IsPlain, PrintsPlain, HasPlainNames,
}

module _ (f : Float) where
  open f use {Double, literal, lt, fixed}

  module _ (p : PrintsPlain f) where
    print_bar-IsPlain :
        (percent : Double) (width : ℕ) → IsPlain (print_bar f false percent width [])
    unfolding print_bar is_plain
    print_bar-IsPlain percent width =
        let filled = bar_filled f percent width in
        printed-IsPlain (
          plain refl
          & plain refl
          & IsPlain-replicate filled b'#' refl
          & plain refl
          & IsPlain-replicate (width - filled) b'.' refl
          & plain refl
          & no_more)

    print_metric-IsPlain :
        (name : Bytes) (percent : Double) (status : Bytes) (width : ℕ)
        → IsPlain (pad_right 8 name)
        → IsPlain status
        → IsPlain (print_metric f false name percent status [] width)
    unfolding print_metric is_plain
    print_metric-IsPlain name percent status width h k =
        let none_here : IsPlain [] = plain refl in
        let value =
          IsPlain-append (IsPlain-replicate (5 - length (fixed 1 percent)) 32 refl)
            (p.fixed_plain 1 percent) in
        printed-IsPlain (
          h
          & plain refl
          & print_bar-IsPlain percent width
          & plain refl
          & value
          & plain refl
          & none_here
          & k
          & none_here
          & no_more)

    print_insight-IsPlain :
        (view : Overview f)
        → HasPlainNames f (diagnosis_input f view)
        → IsPlain (print_insight f false view)
    unfolding print_insight build_view_diagnosis is_plain
    print_insight-IsPlain view names =
        let (headline, detail) = diagnosis_build-IsPlain f p (diagnosis_input f view) names in
        let none_here : IsPlain [] = plain refl in
        printed-IsPlain (
          printed-IsPlain (none_here & headline & none_here & no_more)
          & plain refl
          & detail
          & no_more)

    network_line-IsPlain :
        (view : Overview f)
        → IsPlain (
            if view.network_ok
            then printed (
                codes "Network  down "
                ∷ mib_per_sec f view.rx_per_sec
                ∷ codes " MiB/s | up "
                ∷ mib_per_sec f view.tx_per_sec
                ∷ codes " MiB/s"
                ∷ newline
                ∷ [])
            else [])
    unfolding is_plain
    network_line-IsPlain view = elim (Bool-cases view.network_ok) [
      | inl on ↦ rw on (
          printed-IsPlain (
            plain refl
            & p.fixed_plain 2 _
            & plain refl
            & p.fixed_plain 2 _
            & plain refl
            & plain refl
            & no_more))
      | inr off ↦ rw off (plain refl)
    ]

    -- Where printf prints no escape character for a number and the names in the diagnosis hold none,
    -- the snapshot without colours holds none: it is plain text.
    pub render_compact-IsPlain :
        (view : Overview f)
        → HasPlainNames f (diagnosis_input f view)
        → IsPlain (render_compact f false view)
    unfolding render_compact print_rule is_plain
    render_compact-IsPlain view names = printed-IsPlain (
        plain refl
        & plain refl
        & plain refl
        & status_text-IsPlain (overall_status f view)
        & plain refl
        & IsPlain-replicate 64 b'-' refl
        & plain refl
        & print_metric-IsPlain (codes "CPU") view.cpu_percent _ 18 (plain refl)
            (cpu_status-IsPlain f view.cpu_percent)
        & plain refl
        & print_metric-IsPlain (codes "Memory") view.memory_percent _ 18 (plain refl)
            (memory_status-IsPlain f view.memory_percent)
        & plain refl
        & print_metric-IsPlain (codes "Disk") view.disk_percent _ 18 (plain refl)
            (disk_status-IsPlain f view.disk_percent)
        & plain refl
        & plain refl
        & p.fixed_plain 1 _
        & plain refl
        & p.fixed_plain 1 _
        & plain refl
        & p.fixed_plain 1 _
        & plain refl
        & plain refl
        & network_line-IsPlain view
        & plain refl
        & plain refl
        & plain refl
        & print_insight-IsPlain view names
        & plain refl
        & plain refl
        & plain refl
        & plain refl
        & no_more)
