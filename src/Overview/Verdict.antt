-- ===== src/Overview/Verdict.antt =====
-- How the diagnosis and the overall status agree, and where they do not.
use rookietop.Common.{true, false, ◌≡◌, ◌≢◌, ◌↔◌, ◌<◌, arith}
use rookietop.Libc.Float.{Float}
use rookietop.Overview.{
  Overview, overall_status, build_view_diagnosis, diagnosis_input, diagnosis_lesson,
  status_critical, status_attention, status_healthy, load_ratio,
}
use rookietop.Teaching.{teach_count}
use rookietop.Diagnosis.{disk, healthy, at_least, diagnosis_build}

module _ (f : Float) where
  -- The overall status is critical exactly when the diagnosis is about the disk.
  pub overall_status-critical_iff :
      (view : Overview f)
      → (overall_status f view ≡ status_critical) ↔ ((build_view_diagnosis f view).focus ≡ disk)
  unfolding overall_status build_view_diagnosis diagnosis_build diagnosis_input
  overall_status-critical_iff view = (ground arith, ground arith)

  -- When the diagnosis names any constraint, the overall status is not healthy.
  pub overall_status-constrained :
      (view : Overview f)
      → (build_view_diagnosis f view).focus ≢ healthy
      → overall_status f view ≢ status_healthy
  unfolding overall_status build_view_diagnosis diagnosis_build diagnosis_input
  overall_status-constrained view h = ground arith

  -- With the disk at 85 percent or more and under 95, and no other number over its limit, the
  -- overall status asks for attention while the diagnosis says that nothing is constrained.
  pub overall_status-healthy :
      (view : Overview f)
      → at_least f view.disk_percent 85 1 ≡ true
      → at_least f view.disk_percent 95 1 ≡ false
      → at_least f view.memory_percent 90 1 ≡ false
      → at_least f view.cpu_percent 90 1 ≡ false
      → at_least f (load_ratio f view) 125 100 ≡ false
      → (overall_status f view ≡ status_attention) × ((build_view_diagnosis f view).focus ≡ healthy)
  unfolding overall_status build_view_diagnosis diagnosis_build diagnosis_input
  overall_status-healthy view d85 d95 m c l = (ground arith, ground arith)

  pub diagnosis_lesson-lt : (view : Overview f) → diagnosis_lesson f view < teach_count
  unfolding diagnosis_lesson
  diagnosis_lesson-lt view = ground arith
