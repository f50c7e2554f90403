-- ===== src/App/Signals.antt =====
-- When the interactive program sends a signal, and how it comes to the screens that ask for it.
use rookietop.Common.{
  ℕ, ◌≡◌, ◌≢◌, refl, ap, sym, ◌∙◌, Bool, true, false, List, [], ◌∷◌, some, if◌then◌else◌, arith,
  ◌⊎◌, inl, inr, Option-cases,
}
use mathlib.Core.Path.{subst}
use rookietop.Libc.Float.{Float}
use rookietop.ProcFs.{ProcFs}
use rookietop.ProcessList.{
  read_starttime, process_detail_read, process_send_signal, sigterm, sigkill, KillAnswer, KillCall,
}
use rookietop.ProcessList.Signal.{process_send_signal_safe}
use rookietop.ProcessList.Details.{process_detail_read-eq-some}
use rookietop.App.State.{
  Screen, screen_overview, screen_processes, screen_process_search, screen_detail,
  screen_process_learn, screen_learn_menu, screen_learn_topic, screen_confirm_term,
  screen_confirm_kill, AppState, Frame,
}
use rookietop.App.Rows.{Qsort}
use rookietop.App.Actions.{refresh_selected_detail, handle_signal_confirm}
use rookietop.App.Handlers.{
  on_overview, on_processes, on_process_search, on_detail, on_process_learn, on_learn_menu,
  on_learn_topic, on_confirm, abandoned,
}
use rookietop.App.Step.{handle_screen, step}

-- The screen asks for a signal, and which one.
pub data Asks : Screen → ℕ → Type 0 where
  asks_term : Asks screen_confirm_term sigterm
  asks_kill : Asks screen_confirm_kill sigkill

module _ (f : Float) where
  -- refresh_selected_detail succeeds with the details of the selected process.
  refresh_selected_detail-eq-some :
      (fs : ProcFs) (state : AppState f) {refreshed : AppState f}
      → refresh_selected_detail f fs state ≡ some refreshed
      → (refreshed.selected_detail.row.pid ≡ state.selected_pid)
        × (refreshed.selected_detail.row.starttime ≡ state.selected_starttime)
        × (read_starttime fs state.selected_pid ≡ some state.selected_starttime)
  unfolding refresh_selected_detail
  refresh_selected_detail-eq-some fs state {refreshed} h =
      elim (Option-cases (process_detail_read f fs state.selected_pid)) [
        | inl failed ↦ ground (arith, failed)
        | inr (detail, read) ↦
            let known = process_detail_read-eq-some f fs state.selected_pid read in
            (ground arith, ground arith, ground arith)
      ]

  -- What a call of kill(2) in a round comes with.
  pub record IsAsked (own_pid : ℕ) (frame : Frame f) (state : AppState f) (call : KillCall)
      (more : List KillCall) : Type 0 where
    pub once : more ≡ []
    pub to_selected : call.pid ≡ state.selected_pid
    pub not_itself : call.pid ≢ own_pid
    pub seen : read_starttime frame.fs_before call.pid ≡ some state.selected_starttime
    pub still : read_starttime frame.fs_after call.pid ≡ some state.selected_starttime
    pub confirmed : (frame.key ≡ some b'y') ⊎ (frame.key ≡ some b'Y')
    pub on_screen : Asks state.screen call.signal_number

  pub handle_signal_confirm-calls :
      (kill : KillCall → KillAnswer) (own_pid : ℕ) (fs : ProcFs) (state : AppState f) (force : Bool)
      (call : KillCall) (more : List KillCall)
      → (handle_signal_confirm f kill own_pid fs state force).1 ≡ call ∷ more
      → let row = state.selected_detail.row in
        (row.pid ≢ own_pid)
        × ((process_send_signal kill fs row.pid row.starttime
              (if force then sigkill else sigterm)).1
            ≡ call ∷ more)
  unfolding handle_signal_confirm
  handle_signal_confirm-calls kill own_pid fs state force call more h = (ground arith, ground arith)

  pub on_confirm-calls :
      (kill : KillCall → KillAnswer) (own_pid : ℕ) (force : Bool) (frame : Frame f)
      (state : AppState f) (call : KillCall) (more : List KillCall)
      → (on_confirm f kill own_pid force frame state).calls ≡ call ∷ more
      → (refreshed : AppState f) × (refresh_selected_detail f frame.fs_before state
          ≡ some refreshed)
        × ((frame.key ≡ some b'y') ⊎ (frame.key ≡ some b'Y'))
        × ((handle_signal_confirm f kill own_pid frame.fs_after refreshed force).1 ≡ call ∷ more)
  unfolding on_confirm abandoned
  on_confirm-calls kill own_pid force frame state call more h =
      elim (Option-cases (refresh_selected_detail f frame.fs_before state)) [
        | inl failed ↦ absurd (ground (arith, failed, h))
        | inr (refreshed, e) ↦ (refreshed, e, ground (arith, e, h), ground (arith, e, h))
      ]

  on_confirm-IsAsked :
      (kill : KillCall → KillAnswer) (own_pid : ℕ) (force : Bool) (frame : Frame f)
      (state : AppState f) (call : KillCall) (more : List KillCall)
      → (on_confirm f kill own_pid force frame state).calls ≡ call ∷ more
      → Asks state.screen (if force then sigkill else sigterm)
      → IsAsked own_pid frame state call more
  on_confirm-IsAsked kill own_pid force frame state call more h asks =
      let signal = if force then sigkill else sigterm in
      let (refreshed, e, key, sent) = on_confirm-calls kill own_pid force frame state call more h in
      let (pid_same, starttime_same, before) =
        refresh_selected_detail-eq-some frame.fs_before state e in
      let row = refreshed.selected_detail.row in
      let (other, called) =
        handle_signal_confirm-calls kill own_pid frame.fs_after refreshed force call more sent in
      let (single, same, _, after) =
        process_send_signal_safe kill frame.fs_after row.pid row.starttime signal call more
          called in
      let to_pid : call.pid ≡ row.pid = ap (λ (c : KillCall). c.pid) same in
      let with_signal : call.signal_number ≡ signal = ap (λ (c : KillCall). c.signal_number) same in
      let selected : call.pid ≡ state.selected_pid = to_pid ∙ pid_same in
      record {
        once = single;
        to_selected = selected;
        not_itself = λ own. other (sym to_pid ∙ own);
        seen =
            subst (λ pid. read_starttime frame.fs_before pid ≡ some state.selected_starttime)
              (sym selected) before;
        still = ap (read_starttime frame.fs_after) to_pid ∙ after ∙ ap some starttime_same;
        confirmed = key;
        on_screen = subst (Asks state.screen) (sym with_signal) asks;
      }

  none_called :
      {P : Type 0} {call : KillCall} {more : List KillCall} {calls : List KillCall}
      → calls ≡ []
      → calls ≡ call ∷ more
      → P
  none_called empty h = absurd (ground (arith, empty, h))

  handle_screen-IsAsked :
      (qsort : Qsort f) (kill : KillCall → KillAnswer) (own_pid : ℕ) (screen : Screen)
      (frame : Frame f) (state : AppState f) (call : KillCall) (more : List KillCall)
      → screen ≡ state.screen
      → (handle_screen f qsort kill own_pid screen frame state).calls ≡ call ∷ more
      → IsAsked own_pid frame state call more
  unfolding handle_screen on_overview on_processes on_process_search on_detail on_process_learn
      on_learn_menu on_learn_topic abandoned
  handle_screen-IsAsked qsort kill own_pid screen_overview frame state call more s h =
      none_called (ground arith) h
  handle_screen-IsAsked qsort kill own_pid screen_processes frame state call more s h =
      none_called (ground arith) h
  handle_screen-IsAsked qsort kill own_pid screen_process_search frame state call more s h =
      none_called (ground arith) h
  handle_screen-IsAsked qsort kill own_pid screen_detail frame state call more s h =
      none_called (ground arith) h
  handle_screen-IsAsked qsort kill own_pid screen_process_learn frame state call more s h =
      none_called (ground arith) h
  handle_screen-IsAsked qsort kill own_pid screen_learn_menu frame state call more s h =
      none_called (ground arith) h
  handle_screen-IsAsked qsort kill own_pid screen_learn_topic frame state call more s h =
      none_called (ground arith) h
  handle_screen-IsAsked qsort kill own_pid screen_confirm_term frame state call more s h =
      on_confirm-IsAsked kill own_pid false frame state call more h
        (subst (λ x. Asks x sigterm) s asks_term)
  handle_screen-IsAsked qsort kill own_pid screen_confirm_kill frame state call more s h =
      on_confirm-IsAsked kill own_pid true frame state call more h
        (subst (λ x. Asks x sigkill) s asks_kill)

  -- If a round calls kill(2), it does so once, on a confirmation screen and for the key y or Y; the
  -- pid is that of the selected process and not the program's own; the selected start time was read
  -- for that pid when the screen was drawn and again after the key; and the signal is SIGKILL on
  -- the screen that asks for it, SIGTERM on the other.
  pub step-IsAsked :
      (qsort : Qsort f) (kill : KillCall → KillAnswer) (own_pid : ℕ) (frame : Frame f)
      (state : AppState f) (call : KillCall) (more : List KillCall)
      → (step f qsort kill own_pid frame state).calls ≡ call ∷ more
      → IsAsked own_pid frame state call more
  unfolding step
  step-IsAsked qsort kill own_pid frame state call more h =
      handle_screen-IsAsked qsort kill own_pid state.screen frame state call more refl h
