-- ===== src/Main/Snapshot.antt =====
-- A run with --once from the arguments to what is printed.
use mathlib.Core.Option as Option
use rookietop.Common.{
  false, ◌&&◌, not, ◌≡◌, refl, ◌⊎◌, inl, inr, [], ◌∷◌, none, some, Option-cases, ap, ◌∙◌, sym,
}
use rookietop.Libc.Chars.{codes, str_eq}
use rookietop.Libc.Float.{Float}
use rookietop.Overview.{Overview, diagnosis_input}
use rookietop.Sampling.{Sorts, collect_overview}
use rookietop.Sampling.Numbers.{
  numbers_of, required, IsConsistent, collect_overview-required, collect_overview-IsConsistent,
}
use rookietop.Render.Compact.{render_compact}
use rookietop.Render.Plain.{IsPlain, PrintsPlain, HasPlainNames}
use rookietop.Render.Compact.Plain.{render_compact-IsPlain}
use rookietop.Main.{Environment, ends, run_monitor, main_option, main, no_data_message}

module _ (f : Float) (sorts : Sorts f) where
  -- With the option --once and without colours, where printf prints no escape character for a
  -- number and the names in the diagnosis hold none, the program either prints the snapshot as plain
  -- text and nothing as an error and returns 0, and the numbers of the snapshot are those that the
  -- sample needs, consistent with one another; or it cannot have one of them, prints nothing but
  -- the message and returns 1.
  pub main_once :
      (env : Environment)
      → (env.stdout_tty && not env.no_color) ≡ false
      → PrintsPlain f
      → ((view : Overview f)
          → collect_overview f sorts env.sources ≡ some view
          → HasPlainNames f (diagnosis_input f view))
      → let s = env.sources in
        let needed = required f s.meminfo s.root s.cpu_before s.wait_ok s.cpu_after in
        ((view : Overview f) × (main f sorts (codes "--once" ∷ []) env
            ≡ ends (render_compact f false view) [] 0)
          × IsPlain (render_compact f false view)
          × (needed ≡ some (numbers_of f view))
          × IsConsistent f (numbers_of f view))
        ⊎ ((needed ≡ none) × (main f sorts (codes "--once" ∷ []) env ≡ ends [] no_data_message 1))
  unfolding main main_option run_monitor str_eq
  main_once env colours p names =
      let needs = collect_overview-required f sorts env.sources in
      elim (Option-cases (collect_overview f sorts env.sources)) [
        | inl failed ↦
            inr (sym needs ∙ ap (Option.map (numbers_of f)) failed, rw (failed, run_monitor) refl)
        | inr (view, sampled) ↦ inl (
          view,
          rw (sampled, colours, run_monitor) refl,
          render_compact-IsPlain f p view (names view sampled),
          sym needs ∙ ap (Option.map (numbers_of f)) sampled,
          collect_overview-IsConsistent f sorts env.sources sampled,
        )
      ]
