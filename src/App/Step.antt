-- ===== src/App/Step.antt =====
-- One round of the loop of run_interactive in src/main.c: the chain of tests on the screen, and the
-- tests at its end.
use rookietop.Common.{
  ℕ, Bool, true, false, ◌&&◌, ◌||◌, not, List, Option, none, some, ◌==◌, if◌then◌else◌,
}
use rookietop.Libc.Chars.{Bytes}
use rookietop.Libc.Float.{Float}
use rookietop.ProcessList.{KillAnswer, KillCall}
use rookietop.App.State.{
  Screen, screen_overview, screen_processes, screen_process_search, screen_detail,
  screen_process_learn, screen_learn_menu, screen_learn_topic, screen_confirm_term,
  screen_confirm_kill, AppState, Frame,
}
use rookietop.App.Rows.{Qsort}
use rookietop.App.Handlers.{
  Handled, Flow, to_tests, continues, fails, on_overview, on_processes, on_process_search,
  on_detail, on_process_learn, on_learn_menu, on_learn_topic, on_confirm,
}

-- What a round leaves: the state, the calls of kill(2), what it has drawn, and the result if the
-- loop ends.
pub record Stepped (f : Float) : Type 0 where
  pub state : AppState f
  pub calls : List KillCall
  pub drawn : Option Bytes
  pub exit : Option ℕ

module _ (f : Float) where
  -- The chain of tests on the screen.
  unfoldable pub handle_screen :
      Qsort f → (KillCall → KillAnswer) → ℕ → Screen → Frame f → AppState f → Handled f
  handle_screen qsort kill own_pid screen_overview = on_overview f
  handle_screen qsort kill own_pid screen_processes = on_processes f qsort
  handle_screen qsort kill own_pid screen_process_search = on_process_search f
  handle_screen qsort kill own_pid screen_detail = on_detail f
  handle_screen qsort kill own_pid screen_process_learn = on_process_learn f
  handle_screen qsort kill own_pid screen_learn_menu = on_learn_menu f
  handle_screen qsort kill own_pid screen_learn_topic = on_learn_topic f
  handle_screen qsort kill own_pid screen_confirm_term = on_confirm f kill own_pid false
  handle_screen qsort kill own_pid screen_confirm_kill = on_confirm f kill own_pid true

  -- screen_before == SCREEN_PROCESS_SEARCH
  abbrev pub is_search : Screen → Bool
  is_search screen_process_search = true
  is_search _ = false

  -- The tests at the end of the round, for the screen that it began with.
  unfoldable pub end_of_round : Screen → Option ℕ → Flow → Option ℕ
  end_of_round screen_before key continues = none
  end_of_round screen_before key fails = some 1
  end_of_round screen_before none to_tests = some 1
  end_of_round screen_before (some key) to_tests =
      if not (is_search screen_before) && (key == b'q' || key == b'Q') then some 0 else none

  unfoldable pub step : Qsort f → (KillCall → KillAnswer) → ℕ → Frame f → AppState f → Stepped f
  step qsort kill own_pid frame state =
      let handled = handle_screen qsort kill own_pid state.screen frame state in
      record {
        state = handled.state;
        calls = handled.calls;
        drawn = handled.drawn;
        exit = end_of_round state.screen frame.key handled.flow;
      }
