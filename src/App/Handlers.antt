-- ===== src/App/Handlers.antt =====
-- The handlers of the screens in the loop of run_interactive in src/main.c.
use rookietop.Common.{
  ℕ, ◌+◌, ◌-◌, ◌%◌, Bool, true, false, ◌&&◌, ◌||◌, not, List, [], Option, none, some, ltb, ◌==◌,
  if◌then◌else◌, length, get_elem?,
}
use rookietop.Libc.Chars.{Bytes, codes}
use rookietop.Libc.Float.{Float}
use rookietop.ProcFs.{ProcFs}
use rookietop.ProcessList.{ProcessRow, KillAnswer, KillCall}
use rookietop.Teaching.{teach_count, teaching_count}
use rookietop.Render.Dashboard.{overview_screen}
use rookietop.Render.Processes.{render_processes}
use rookietop.Render.Details.{
  render_process_search, render_process_detail, render_process_learning, render_confirm,
}
use rookietop.Render.Learning.{render_learn_menu, render_lesson}
use rookietop.App.State.{
  Screen, screen_overview, screen_processes, screen_detail, screen_process_learn, screen_learn_menu,
  screen_learn_topic, screen_confirm_term, screen_confirm_kill, sort_memory, sort_cpu, sort_pid,
  sort_name, input_up, input_down, input_enter, input_escape, AppState, Frame,
}
use rookietop.App.Rows.{Qsort, visible_rows, align_selection, select_row}
use rookietop.App.Actions.{
  set_notice, refresh_overview, refresh_selected_detail, open_selected_detail,
  open_confirm_from_detail, handle_signal_confirm, prepare_learn_from_view, begin_process_search,
  apply_process_search, edit_process_search,
}

-- key == c
abbrev pub is_key : Option ℕ → ℕ → Bool
is_key none c = false
is_key (some key) c = key == c

-- How a handler ends: by the tests on the key, by `continue`, or by `return 1`.
pub data Flow : Type 0 where
  to_tests continues fails : Flow

-- What a handler leaves: the state, the calls of kill(2), what it has drawn before it read the key
-- (`none` where the lines of a lesson have no end), and how it ends.
pub record Handled (f : Float) : Type 0 where
  pub state : AppState f
  pub calls : List KillCall
  pub drawn : Option Bytes
  pub flow : Flow

module _ (f : Float) where
  abbrev pub settled : Bytes → AppState f → Handled f
  settled screen state = record { state = state; calls = []; drawn = some screen; flow = to_tests }

  unfoldable pub on_overview : Frame f → AppState f → Handled f
  on_overview frame state =
      let (refreshed, ok) = refresh_overview f frame.overview state in
      if not ok
      then record { state = refreshed; calls = []; drawn = some []; flow = fails }
      else settled
          (overview_screen f frame.use_color frame.term_rows frame.term_cols refreshed.view
            refreshed.history)
          (if is_key frame.key b'p'
            then record refreshed { screen = screen_processes; notice = [] }
            else if is_key frame.key b'?' || is_key frame.key b'l' || is_key frame.key b'L'
            then prepare_learn_from_view f refreshed
            else refreshed)

  -- Opens the selected row on a screen.
  unfoldable pub open_selected : ProcFs → AppState f → List (ProcessRow f) → Screen → AppState f
  open_selected fs state rows screen = elim (get_elem? rows state.selected) [
    | none ↦ state
    | some row ↦ open_selected_detail f fs state row.pid row.starttime screen
  ]

  -- The tests on the key of the process screen, for a state whose selection is aligned.
  unfoldable pub processes_key : ProcFs → Option ℕ → AppState f → List (ProcessRow f) → AppState f
  processes_key fs key state rows =
      let any = ltb 0 (length rows) in
      if is_key key input_up && any
      then select_row f
          (if ltb 0 state.selected then record state { selected = state.selected - 1 } else state)
          rows
      else if is_key key input_down && any
      then select_row f
          (if ltb (state.selected + 1) (length rows)
            then record state { selected = state.selected + 1 }
            else state)
          rows
      else if is_key key input_enter && any
      then open_selected fs state rows screen_detail
      else if is_key key b'?' && any
      then open_selected fs state rows screen_process_learn
      else if is_key key b'k' && any
      then open_selected fs state rows screen_confirm_term
      else if is_key key b'K' && any
      then open_selected fs state rows screen_confirm_kill
      else if is_key key b'/'
      then begin_process_search f state
      else if is_key key b'c'
      then record state { sort = sort_cpu }
      else if is_key key b'm'
      then record state { sort = sort_memory }
      else if is_key key b'p'
      then record state { sort = sort_pid }
      else if is_key key b'n'
      then record state { sort = sort_name }
      else if is_key key b'l' || is_key key b'L'
      then record state { return_screen = screen_processes; screen = screen_learn_menu }
      else if is_key key input_escape
      then record state { screen = screen_overview }
      else state

  -- The rows that the process screen works on, and the state once its selection is aligned.
  unfoldable pub processes_sampled :
      Qsort f → Frame f → AppState f → List (ProcessRow f) × AppState f
  processes_sampled qsort frame state = elim frame.rows [
    | none ↦ (
      [],
      align_selection f (set_notice f state (codes "RookieTop could not read the process list."))
          [],
    )
    | some rows ↦
        let visible = visible_rows f qsort rows state in (visible, align_selection f state visible)
  ]

  unfoldable pub on_processes : Qsort f → Frame f → AppState f → Handled f
  on_processes qsort frame state =
      let (rows, aligned) = processes_sampled qsort frame state in
      settled
        (render_processes f frame.use_color frame.term_rows frame.term_cols rows
          (elim frame.rows [ none ↦ 0 | some sampled ↦ length sampled ]) aligned)
        (processes_key frame.fs_after frame.key aligned rows)

  unfoldable pub on_process_search : Frame f → AppState f → Handled f
  on_process_search frame state =
      settled (render_process_search f frame.use_color frame.term_rows frame.term_cols state) (
        if is_key frame.key input_enter
        then apply_process_search f state
        else if is_key frame.key input_escape
        then record state { screen = screen_processes }
        else edit_process_search f state frame.key)

  -- `set_notice(…); state.screen = SCREEN_PROCESSES; continue;`
  unfoldable pub abandoned : AppState f → Handled f
  abandoned state = record {
    state = record (set_notice f state (codes "The process exited or that PID was reused.")) {
      screen = screen_processes;
    };
    calls = [];
    drawn = some [];
    flow = continues;
  }

  -- The keys that the detail screen and its lesson share.
  unfoldable pub stop_key : ProcFs → Option ℕ → AppState f → AppState f
  stop_key fs key state =
      if is_key key b'k'
      then open_confirm_from_detail f fs state false
      else if is_key key b'K'
      then open_confirm_from_detail f fs state true
      else if is_key key input_escape
      then record state { screen = screen_processes }
      else state

  unfoldable pub on_detail : Frame f → AppState f → Handled f
  on_detail frame state = elim (refresh_selected_detail f frame.fs_before state) [
    | none ↦ abandoned state
    | some refreshed ↦
        settled
          (render_process_detail f frame.use_color frame.term_rows frame.term_cols
            refreshed.selected_detail)
          (if is_key frame.key b'?'
            then record refreshed { screen = screen_process_learn }
            else stop_key frame.fs_after frame.key refreshed)
  ]

  unfoldable pub on_process_learn : Frame f → AppState f → Handled f
  on_process_learn frame state = elim (refresh_selected_detail f frame.fs_before state) [
    | none ↦ abandoned state
    | some refreshed ↦
        settled
          (render_process_learning f frame.use_color frame.term_rows frame.term_cols
            refreshed.selected_detail)
          (stop_key frame.fs_after frame.key refreshed)
  ]

  unfoldable pub on_learn_menu : Frame f → AppState f → Handled f
  on_learn_menu frame state =
      settled (render_learn_menu f frame.use_color frame.term_rows frame.term_cols state) (
        if is_key frame.key input_up && ltb 0 state.learn_selected
        then record state { learn_selected = state.learn_selected - 1 }
        else if is_key frame.key input_down && ltb (state.learn_selected + 1) teaching_count
        then record state { learn_selected = state.learn_selected + 1 }
        else if is_key frame.key input_enter
        then record state { lesson = state.learn_selected; screen = screen_learn_topic }
        else if is_key frame.key input_escape
        then record state { screen = state.return_screen }
        else state)

  unfoldable pub on_learn_topic : Frame f → AppState f → Handled f
  on_learn_topic frame state =
      let next = (state.lesson + 1) % teach_count in
      let previous = (state.lesson + teach_count - 1) % teach_count in
      record {
        state =
            if is_key frame.key b'n' || is_key frame.key b'N'
            then record state { lesson = next; learn_selected = next }
            else if is_key frame.key b'b' || is_key frame.key b'B'
            then record state { lesson = previous; learn_selected = previous }
            else if is_key frame.key input_escape
            then record state { screen = screen_learn_menu }
            else state;
        calls = [];
        drawn = render_lesson f frame.use_color frame.term_rows frame.term_cols state;
        flow = to_tests;
      }

  -- The screens of the confirmation; `force` is whether it is the one for SIGKILL.
  unfoldable pub on_confirm : (KillCall → KillAnswer) → ℕ → Bool → Frame f → AppState f → Handled f
  on_confirm kill own_pid force frame state =
      elim (refresh_selected_detail f frame.fs_before state) [
        | none ↦ abandoned state
        | some refreshed ↦
            let screen =
              render_confirm f frame.use_color frame.term_rows frame.term_cols force
                refreshed.selected_detail in
            let (signalled, calls) =
              handle_signal_confirm f kill own_pid frame.fs_after refreshed force in
            if is_key frame.key b'y' || is_key frame.key b'Y'
            then record { state = signalled; calls = calls; drawn = some screen; flow = to_tests }
            else settled screen (
                if is_key frame.key b'n' || is_key frame.key b'N' || is_key frame.key input_escape
                then record refreshed { screen = screen_processes }
                else refreshed)
      ]
