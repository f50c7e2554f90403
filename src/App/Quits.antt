-- ===== src/App/Quits.antt =====
-- The way out: Escape and then q end the loop from every state that it reaches.
use rookietop.Common.{ℕ, ◌≡◌, refl, Option, none, some, ◌⊎◌, inl, inr, Option-cases}
use rookietop.Libc.Float.{Float}
use rookietop.ProcessList.{KillAnswer, KillCall}
use rookietop.App.State.{
  Screen, screen_overview, screen_processes, screen_process_search, screen_detail,
  screen_process_learn, screen_learn_menu, screen_learn_topic, screen_confirm_term,
  screen_confirm_kill, AppState, Frame, input_escape,
}
use rookietop.App.Rows.{Qsort}
use rookietop.App.Actions.{refresh_selected_detail, refresh_overview}
use rookietop.App.Handlers.{
  abandoned, on_overview, processes_key, on_processes, on_process_search, stop_key, on_detail,
  on_process_learn, on_learn_menu, on_learn_topic, on_confirm,
}
use rookietop.App.Step.{handle_screen, end_of_round, step}
use rookietop.App.Valid.{IsValid}
use rookietop.App.Reachable.{Reaches, Reaches-IsValid}

-- The screens on which no handler needs a process, and no key is typed into a text.
abbrev pub IsCalm : Screen → Type 0
IsCalm screen_overview = Unit
IsCalm screen_processes = Unit
IsCalm screen_learn_menu = Unit
IsCalm _ = ⊥

module _ (f : Float) (qsort : Qsort f) (kill : KillCall → KillAnswer) (own_pid : ℕ) where
  handle_screen-IsCalm :
      (screen : Screen) (frame : Frame f) (state : AppState f)
      → state.screen ≡ screen
      → IsValid f state
      → frame.key ≡ some input_escape
      → IsCalm (handle_screen f qsort kill own_pid screen frame state).state.screen
  unfolding handle_screen on_overview on_processes processes_key on_process_search on_detail
      on_process_learn on_learn_menu on_learn_topic on_confirm stop_key abandoned refresh_overview
  handle_screen-IsCalm screen_overview frame state e v k = elim (Option-cases frame.overview) [
    | inl o ↦ rw (o, e) tt
    | inr (view, o) ↦ rw (o, k, e) tt
  ]
  handle_screen-IsCalm screen_processes frame state e v k = rw k tt
  handle_screen-IsCalm screen_process_search frame state e v k = rw k tt
  handle_screen-IsCalm screen_detail frame state e v k =
      elim (Option-cases (refresh_selected_detail f frame.fs_before state)) [
        | inl o ↦ rw (o, on_detail, IsCalm) tt
        | inr (refreshed, o) ↦ rw (o, k, on_detail, IsCalm) tt
      ]
  handle_screen-IsCalm screen_process_learn frame state e v k =
      elim (Option-cases (refresh_selected_detail f frame.fs_before state)) [
        | inl o ↦ rw (o, on_process_learn, IsCalm) tt
        | inr (refreshed, o) ↦ rw (o, k, on_process_learn, IsCalm) tt
      ]
  handle_screen-IsCalm screen_learn_menu frame state e v k = elim v.parts.returns [
    | inl r ↦ rw (k, r) tt
    | inr r ↦ rw (k, r) tt
  ]
  handle_screen-IsCalm screen_learn_topic frame state e v k = rw k tt
  handle_screen-IsCalm screen_confirm_term frame state e v k =
      elim (Option-cases (refresh_selected_detail f frame.fs_before state)) [
        | inl o ↦ rw (o, on_confirm, IsCalm) tt
        | inr (refreshed, o) ↦ rw (o, k, on_confirm, IsCalm) tt
      ]
  handle_screen-IsCalm screen_confirm_kill frame state e v k =
      elim (Option-cases (refresh_selected_detail f frame.fs_before state)) [
        | inl o ↦ rw (o, on_confirm, IsCalm) tt
        | inr (refreshed, o) ↦ rw (o, k, on_confirm, IsCalm) tt
      ]

  step-IsCalm :
      (frame : Frame f) (state : AppState f)
      → IsValid f state
      → frame.key ≡ some input_escape
      → IsCalm (step f qsort kill own_pid frame state).state.screen
  unfolding step
  step-IsCalm frame state v k = handle_screen-IsCalm state.screen frame state refl v k

  -- How the loop ends for `q`: with 0, or with 1 on the overview where it cannot be sampled.
  abbrev pub Quits : Frame f → AppState f → Option ℕ → Type 0
  Quits frame state exit =
      (exit ≡ some 0)
      ⊎ ((exit ≡ some 1) × (state.screen ≡ screen_overview) × (frame.overview ≡ none))

  calm-Quits :
      (screen : Screen) (frame : Frame f) (state : AppState f)
      → state.screen ≡ screen
      → IsCalm screen
      → frame.key ≡ some b'q'
      → Quits frame state (
          end_of_round f screen frame.key
            (handle_screen f qsort kill own_pid screen frame state).flow)
  unfolding handle_screen on_overview refresh_overview on_processes on_learn_menu end_of_round
  calm-Quits screen_overview frame state e c k = elim (Option-cases frame.overview) [
    | inl o ↦ rw o (inr (refl, e, refl))
    | inr (view, o) ↦ rw (o, k) (inl refl)
  ]
  calm-Quits screen_processes frame state e c k = rw k (inl refl)
  calm-Quits screen_learn_menu frame state e c k = rw k (inl refl)
  calm-Quits screen_process_search frame state e c k = absurd c
  calm-Quits screen_detail frame state e c k = absurd c
  calm-Quits screen_process_learn frame state e c k = absurd c
  calm-Quits screen_learn_topic frame state e c k = absurd c
  calm-Quits screen_confirm_term frame state e c k = absurd c
  calm-Quits screen_confirm_kill frame state e c k = absurd c

  step-Quits :
      (frame : Frame f) (state : AppState f)
      → IsCalm state.screen
      → frame.key ≡ some b'q'
      → Quits frame state (step f qsort kill own_pid frame state).exit
  unfolding step
  step-Quits frame state c k = calm-Quits state.screen frame state refl c k

  -- In every state that the loop reaches, a round with Escape and then a round with `q` end the
  -- program, whatever else the two rounds meet, with 0, or with 1 where the second round shows the
  -- overview and cannot sample it.
  pub Reaches-Quits :
      (state : AppState f) (first second : Frame f)
      → Reaches f qsort kill own_pid state
      → first.key ≡ some input_escape
      → second.key ≡ some b'q'
      → let next = (step f qsort kill own_pid first state).state in
        Quits second next (step f qsort kill own_pid second next).exit
  Reaches-Quits state first second reached k q =
      step-Quits second (step f qsort kill own_pid first state).state
        (step-IsCalm first state (Reaches-IsValid f qsort kill own_pid reached) k) q
