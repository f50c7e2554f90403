-- ===== src/App/Reachable.antt =====
-- The states that run_interactive reaches, and what holds in all of them.
use rookietop.Common.{
  ℕ, ◌+◌, ◌-◌, ◌%◌, zero, suc, ap, ◌≡◌, refl, Bool, true, false, ◌&&◌, ◌||◌, none, ltb, arith, inl,
  inr, Option-cases, Bool-cases, length,
}
use mathlib.Core.Path.{subst}
use rookietop.Libc.Float.{Float}
use rookietop.ProcessList.{KillAnswer, KillCall}
use rookietop.Teaching.{teach_count}
use rookietop.App.State.{
  Screen, screen_overview, screen_processes, screen_process_search, screen_detail,
  screen_process_learn, screen_learn_menu, screen_learn_topic, screen_confirm_term,
  screen_confirm_kill, AppState, Frame, initial, input_up, input_down, input_enter, input_escape,
  zeros,
}
use rookietop.App.Rows.{Qsort}
use rookietop.App.Actions.{refresh_selected_detail}
use rookietop.App.Handlers.{
  is_key, abandoned, on_detail, on_process_learn, on_learn_menu, on_learn_topic, on_confirm,
}
use rookietop.App.Step.{handle_screen, step}
use rookietop.App.Valid.{
  IsValid, with_lesson, if-IsValid, set_notice-IsValid, SomeValid,
  refresh_selected_detail-SomeValid, handle_signal_confirm-IsValid,
}
use rookietop.App.Screens.{
  on_overview-IsValid, on_processes-IsValid, on_process_search-IsValid, stop_key-IsValid,
}

module _ (f : Float) where
  abandoned-IsValid : (state : AppState f) → IsValid f state → IsValid f (abandoned f state).state
  unfolding abandoned
  abandoned-IsValid state v = record { parts = (set_notice-IsValid f state _ v).parts }

  on_detail-IsValid :
      (frame : Frame f) (state : AppState f)
      → IsValid f state
      → IsValid f (on_detail f frame state).state
  unfolding on_detail SomeValid
  on_detail-IsValid frame state v =
      let valid = refresh_selected_detail-SomeValid f frame.fs_before state v in
      elim (Option-cases (refresh_selected_detail f frame.fs_before state)) [
        | inl e ↦ rw (e, on_detail) (abandoned-IsValid state v)
        | inr (refreshed, e) ↦
            let w : IsValid f refreshed = subst (SomeValid f) e valid in
            rw (e, on_detail)
              (if-IsValid f (is_key frame.key b'?') (record { parts = w.parts })
                (stop_key-IsValid f frame.fs_after frame.key refreshed w))
      ]

  on_process_learn-IsValid :
      (frame : Frame f) (state : AppState f)
      → IsValid f state
      → IsValid f (on_process_learn f frame state).state
  unfolding on_process_learn SomeValid
  on_process_learn-IsValid frame state v =
      let valid = refresh_selected_detail-SomeValid f frame.fs_before state v in
      elim (Option-cases (refresh_selected_detail f frame.fs_before state)) [
        | inl e ↦ rw (e, on_process_learn) (abandoned-IsValid state v)
        | inr (refreshed, e) ↦
            let w : IsValid f refreshed = subst (SomeValid f) e valid in
            rw (e, on_process_learn) (stop_key-IsValid f frame.fs_after frame.key refreshed w)
      ]

  on_confirm-IsValid :
      (kill : KillCall → KillAnswer) (own_pid : ℕ) (force : Bool) (frame : Frame f)
      (state : AppState f)
      → IsValid f state
      → IsValid f (on_confirm f kill own_pid force frame state).state
  unfolding on_confirm SomeValid
  on_confirm-IsValid kill own_pid force frame state v =
      let valid = refresh_selected_detail-SomeValid f frame.fs_before state v in
      elim (Option-cases (refresh_selected_detail f frame.fs_before state)) [
        | inl e ↦ rw (e, on_confirm) (abandoned-IsValid state v)
        | inr (refreshed, e) ↦
            let w : IsValid f refreshed = subst (SomeValid f) e valid in
            elim (Bool-cases (is_key frame.key b'y' || is_key frame.key b'Y')) [
              | inl agreed ↦
                  rw (e, on_confirm, agreed)
                    (handle_signal_confirm-IsValid f kill own_pid frame.fs_after refreshed force w)
              | inr other ↦
                  rw (e, on_confirm, other)
                    (if-IsValid f
                      (is_key frame.key b'n'
                        || is_key frame.key b'N'
                        || is_key frame.key input_escape)
                      (record { parts = w.parts }) w)
            ]
      ]

  on_learn_menu-IsValid :
      (frame : Frame f) (state : AppState f)
      → IsValid f state
      → IsValid f (on_learn_menu f frame state).state
  unfolding on_learn_menu
  on_learn_menu-IsValid frame state v =
      let up = is_key frame.key input_up && ltb 0 state.learn_selected in
      let down = is_key frame.key input_down && ltb (state.learn_selected + 1) teach_count in
      let lesson = v.parts.a_lesson in
      let choice = v.parts.a_choice in
      elim (Bool-cases up) [
        | inl go_up ↦ rw go_up (record {
          parts =
              (with_lesson f state state.lesson (state.learn_selected - 1) lesson (omega arith)
                v).parts;
        })
        | inr not_up ↦ elim (Bool-cases down) [
          | inl go_down ↦
              rw (not_up, go_down)
                (record {
                  parts =
                      (with_lesson f state state.lesson (state.learn_selected + 1) lesson
                        (ground arith) v).parts;
                })
          | inr not_down ↦
              rw (not_up, not_down)
                (if-IsValid f (is_key frame.key input_enter)
                  (record {
                    parts =
                        (with_lesson f state state.learn_selected state.learn_selected choice choice
                          v).parts;
                  })
                  (if-IsValid f (is_key frame.key input_escape) (record { parts = v.parts }) v))
        ]
      ]

  on_learn_topic-IsValid :
      (frame : Frame f) (state : AppState f)
      → IsValid f state
      → IsValid f (on_learn_topic f frame state).state
  unfolding on_learn_topic
  on_learn_topic-IsValid frame state v =
      let next = (state.lesson + 1) % teach_count in
      let previous = (state.lesson + teach_count - 1) % teach_count in
      let to_next = with_lesson f state next next (omega arith) (omega arith) v in
      let to_previous = with_lesson f state previous previous (omega arith) (omega arith) v in
      if-IsValid f (is_key frame.key b'n' || is_key frame.key b'N')
        (record { parts = to_next.parts })
        (if-IsValid f (is_key frame.key b'b' || is_key frame.key b'B')
          (record { parts = to_previous.parts })
          (if-IsValid f (is_key frame.key input_escape) (record { parts = v.parts }) v))

  handle_screen-IsValid :
      (qsort : Qsort f) (kill : KillCall → KillAnswer) (own_pid : ℕ) (screen : Screen)
      (frame : Frame f) (state : AppState f)
      → IsValid f state
      → IsValid f (handle_screen f qsort kill own_pid screen frame state).state
  unfolding handle_screen
  handle_screen-IsValid qsort kill own_pid screen_overview = on_overview-IsValid f
  handle_screen-IsValid qsort kill own_pid screen_processes = on_processes-IsValid f qsort
  handle_screen-IsValid qsort kill own_pid screen_process_search = on_process_search-IsValid f
  handle_screen-IsValid qsort kill own_pid screen_detail = on_detail-IsValid
  handle_screen-IsValid qsort kill own_pid screen_process_learn = on_process_learn-IsValid
  handle_screen-IsValid qsort kill own_pid screen_learn_menu = on_learn_menu-IsValid
  handle_screen-IsValid qsort kill own_pid screen_learn_topic = on_learn_topic-IsValid
  handle_screen-IsValid qsort kill own_pid screen_confirm_term =
      on_confirm-IsValid kill own_pid false
  handle_screen-IsValid qsort kill own_pid screen_confirm_kill =
      on_confirm-IsValid kill own_pid true

  length-zeros : (n : ℕ) → length (zeros f n) ≡ n
  length-zeros zero = refl
  length-zeros (suc n) = ap suc (length-zeros n)

  module _ (qsort : Qsort f) (kill : KillCall → KillAnswer) (own_pid : ℕ) where
    -- The states at the top of the loop, after any frames that did not end it.
    pub data Reaches : AppState f → Type 0 where
      begins : Reaches (initial f)
      then_frame :
          {state : AppState f} (frame : Frame f)
          → Reaches state
          → (step f qsort kill own_pid frame state).exit ≡ none
          → Reaches (step f qsort kill own_pid frame state).state

    step-IsValid :
        (frame : Frame f) (state : AppState f)
        → IsValid f state
        → IsValid f (step f qsort kill own_pid frame state).state
    unfolding step
    step-IsValid frame state v = handle_screen-IsValid qsort kill own_pid state.screen frame state v

    -- In every state that the loop reaches, the lesson and the choice of the lesson menu are among
    -- the teach_count lessons, the menu returns to the overview or the process list, the search, its
    -- draft and the notice fit their buffers, and the history fits its arrays.
    pub Reaches-IsValid : {state : AppState f} → Reaches state → IsValid f state
    Reaches-IsValid begins = record {
      parts = record {
        a_lesson = omega arith;
        a_choice = omega arith;
        returns = inl refl;
        search_fits = omega arith;
        draft_fits = omega arith;
        notice_fits = omega arith;
        a_history = record {
          cpu_cells = length-zeros 90;
          memory_cells = length-zeros 90;
          in_range = omega arith;
        };
      };
    }
    Reaches-IsValid (then_frame frame reached runs) = step-IsValid frame _ (Reaches-IsValid reached)
