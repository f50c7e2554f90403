-- ===== src/App/Actions.antt =====
-- The helpers that a key calls: the details, the confirmation, the signal, and the search.
use rookietop.Common.{
  true, false, ℕ, ◌+◌, ◌-◌, Bool, ◌&&◌, ◌||◌, List, [], ◌∷◌, ◌++◌, Option, none, some, ltb, leb,
  ◌==◌, if◌then◌else◌, length, take,
}
use rookietop.Libc.Chars.{Bytes, codes, is_print}
use rookietop.Libc.Float.{Float}
use rookietop.ProcFs.{ProcFs}
use rookietop.ProcessList.{
  process_detail_read, process_send_signal, SignalResult, KillAnswer, KillCall, sigterm, sigkill,
}
use rookietop.Overview.{Overview, diagnosis_lesson}
use rookietop.App.History.{history_push}
use rookietop.App.State.{
  AppState, Screen, screen_overview, screen_processes, screen_process_search, screen_learn_menu,
  screen_confirm_term, screen_confirm_kill, process_search_max,
}

module _ (f : Float) where
  -- `snprintf(notice, 192, …)`
  unfoldable pub set_notice : AppState f → Bytes → AppState f
  set_notice state message = record state { notice = take 191 message }

  unfoldable pub set_signal_notice : AppState f → SignalResult → Bool → Bytes → AppState f
  set_signal_notice state SignalResult.ok force name = set_notice state (
      name
      ++ (if force
          then codes " was force-killed with SIGKILL."
          else codes " was asked to stop cleanly with SIGTERM."))
  set_signal_notice state SignalResult.permission force name =
      set_notice state (codes "RookieTop cannot stop this process with your current permissions.")
  set_signal_notice state SignalResult.reused force name =
      set_notice state
        (codes "That PID now belongs to a different process, so RookieTop cancelled the action.")
  set_signal_notice state SignalResult.gone force name =
      set_notice state (codes "The process already exited, so there was nothing to stop.")
  set_signal_notice state SignalResult.error force name =
      set_notice state (codes "RookieTop could not send the signal.")

  -- `none` is the result -1, which leaves the state as it was.
  unfoldable pub refresh_selected_detail : ProcFs → AppState f → Option (AppState f)
  refresh_selected_detail fs state = elim (process_detail_read f fs state.selected_pid) [
    | none ↦ none
    | some detail ↦
        if detail.row.starttime == state.selected_starttime
        then some (record state { selected_detail = detail })
        else none
  ]

  -- The selected row is given by its pid and its start time. A detail that is read is stored, also
  -- where its start time is another.
  unfoldable pub open_selected_detail : ProcFs → AppState f → ℕ → ℕ → Screen → AppState f
  open_selected_detail fs state pid starttime screen =
      let selected = record state { selected_pid = pid; selected_starttime = starttime } in
      let failed = λ (s : AppState f).
        record (set_notice s
          (codes "The process changed or exited before RookieTop could open it.")) {
            screen = screen_processes;
          } in
      elim (process_detail_read f fs pid) [
        | none ↦ failed selected
        | some detail ↦
            let stored = record selected { selected_detail = detail } in
            if detail.row.starttime == starttime
            then record stored { screen = screen }
            else failed stored
      ]

  unfoldable pub open_confirm_from_detail : ProcFs → AppState f → Bool → AppState f
  open_confirm_from_detail fs state force = elim (refresh_selected_detail fs state) [
    | none ↦
        record (set_notice state
          (codes "The process exited or that PID now belongs to something else.")) {
            screen = screen_processes;
          }
    | some refreshed ↦ record refreshed {
      screen = if force then screen_confirm_kill else screen_confirm_term;
    }
  ]

  -- `own_pid` is what getpid() returns.
  unfoldable pub handle_signal_confirm :
      (KillCall → KillAnswer) → ℕ → ProcFs → AppState f → Bool → AppState f × List KillCall
  handle_signal_confirm kill own_pid fs state force =
      let row = state.selected_detail.row in
      let (result, calls) =
        process_send_signal kill fs row.pid row.starttime (if force then sigkill else sigterm) in
      if row.pid == own_pid
      then (
        record (set_notice state (codes "RookieTop will not stop itself.")) {
          screen = screen_processes;
        },
        [],
      )
      else (
        record (set_signal_notice state result force row.name) { screen = screen_processes },
        calls,
      )

  -- Given what collect_overview returns; the Boolean is whether the result is 0.
  unfoldable pub refresh_overview : Option (Overview f) → AppState f → AppState f × Bool
  refresh_overview none state = (record state { view_ok = false }, false)
  refresh_overview (some view) state = (
    record state {
      view = view;
      view_ok = true;
      history = history_push state.history view.cpu_percent view.memory_percent;
    },
    true,
  )

  unfoldable pub prepare_learn_from_view : AppState f → AppState f
  prepare_learn_from_view state =
      let lesson = diagnosis_lesson f state.view in
      record state {
        lesson = lesson;
        learn_selected = lesson;
        return_screen = screen_overview;
        screen = screen_learn_menu;
      }

  unfoldable pub begin_process_search : AppState f → AppState f
  begin_process_search state = record state {
    search_draft = take (process_search_max - 1) state.search;
    screen = screen_process_search;
  }

  unfoldable pub apply_process_search : AppState f → AppState f
  apply_process_search state = record state {
    search = take (process_search_max - 1) state.search_draft;
    selected = 0;
    selected_pid = 0;
    selected_starttime = 0;
    notice = [];
    screen = screen_processes;
  }

  unfoldable pub edit_process_search : AppState f → Option ℕ → AppState f
  edit_process_search state none = state
  edit_process_search state (some key) =
      let len = length state.search_draft in
      if key == 8 || key == 127
      then record state { search_draft = take (len - 1) state.search_draft }
      else if leb key 255 && is_print key && ltb (len + 1) process_search_max
      then record state { search_draft = state.search_draft ++ key ∷ [] }
      else state
