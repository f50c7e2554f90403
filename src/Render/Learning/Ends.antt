-- ===== src/Render/Learning/Ends.antt =====
-- render_lesson ends on every terminal.
use rookietop.Common.{
  ℕ, ◌+◌, ◌<◌, ◌≡◌, refl, Bool, [], some, >>=_succeeds, arith, Option-cases, inl, inr,
}
use rookietop.Libc.Chars.{Bytes, codes}
use rookietop.Libc.Int.{pos, ◌-ℤ◌}
use rookietop.Libc.Float.{Float}
use rookietop.Teaching.{TeachingTopic, teaching_get}
use rookietop.App.State.{AppState}
use rookietop.Render.Wrap.{print_wrapped}
use rookietop.Render.Wrap.Lines.{print_wrapped-eq-some}
use rookietop.Render.Learning.{
  lesson_width, lesson_context, lesson_part, lesson_screen, render_lesson,
}

lesson_width-pos : (term_cols : ℕ) → 0 < lesson_width term_cols
unfolding lesson_width ◌-ℤ◌
lesson_width-pos term_cols = ground arith

module _ (f : Float) (use_color : Bool) where
  lesson_part-eq-some :
      (width row : ℕ) (title text : Bytes)
      → 0 < width
      → (out : Bytes × ℕ) × (lesson_part f use_color width row title text ≡ some out)
  unfolding lesson_part
  lesson_part-eq-some width row title text h =
      >>=_succeeds (print_wrapped (row + 2) (pos 4) width text) _
        (print_wrapped-eq-some (row + 2) (pos 4) width text h) (λ out. (_, refl))

  lesson_screen-eq-some :
      (term_rows term_cols : ℕ) (state : AppState f) (topic : TeachingTopic)
      → (out : Bytes) × (lesson_screen f use_color term_rows term_cols state topic ≡ some out)
  unfolding lesson_screen
  lesson_screen-eq-some term_rows term_cols state topic =
      let width = lesson_width term_cols in
      let h = lesson_width-pos term_cols in
      let row = (lesson_context f use_color state).1 in
      let part = lesson_part f use_color width in
      let ends = λ (row : ℕ) (title text : Bytes). lesson_part-eq-some width row title text h in
      let what = codes "WHAT IT MEANS" in
      let why = codes "WHEN TO CARE" in
      let how = codes "HOW LINUX SHOWS IT" in
      let try_it = codes "TRY IT" in
      >>=_succeeds (part row what topic.what) _ (ends row what topic.what) (λ r1.
        >>=_succeeds (part r1.1 why topic.why) _ (ends r1.1 why topic.why) (λ r2.
          >>=_succeeds (part r2.1 how topic.how) _ (ends r2.1 how topic.how) (λ r3.
            >>=_succeeds (part (r3.1 + 1) try_it topic.try_it) _
              (ends (r3.1 + 1) try_it topic.try_it) (λ r4. (_, refl)))))

  -- render_lesson ends for every state and every size of the terminal: none of its loops over a
  -- text goes on for ever.
  pub render_lesson-eq-some :
      (term_rows term_cols : ℕ) (state : AppState f)
      → (out : Bytes) × (render_lesson f use_color term_rows term_cols state ≡ some out)
  unfolding render_lesson
  render_lesson-eq-some term_rows term_cols state =
      elim (Option-cases (teaching_get state.lesson)) [
        | inl e ↦ ([], rw (e, render_lesson) refl)
        | inr (topic, e) ↦
            let (out, ends) = lesson_screen-eq-some term_rows term_cols state topic in
            (out, rw (e, render_lesson) ends)
      ]
