-- ===== src/App/Screens.antt =====
-- The handlers of the overview, the process list and the search keep the state valid.
use rookietop.Common.{
  ℕ, ◌+◌, ◌-◌, refl, true, false, ◌&&◌, ◌||◌, List, [], ◌∷◌, ◌++◌, Option, none, some, ltb, leb,
  ◌==◌, if◌then◌else◌, arith, inl, inr, Option-cases, Bool-cases, length, take, length-take,
  length-append, get_elem?,
}
use rookietop.Libc.Chars.{is_print, codes}
use rookietop.Libc.Float.{Float}
use rookietop.ProcFs.{ProcFs}
use rookietop.ProcessList.{ProcessRow}
use rookietop.Overview.{diagnosis_lesson}
use rookietop.Overview.Verdict.{diagnosis_lesson-lt}
use rookietop.App.State.{
  Screen, screen_overview, screen_processes, screen_detail, screen_process_learn,
  screen_confirm_term, screen_confirm_kill, AppState, Frame, input_up, input_down, input_enter,
  input_escape, process_search_max,
}
use rookietop.App.History.{history_push}
use rookietop.App.History.Recent.{history_push-IsHistory}
use rookietop.App.Rows.{Qsort, align_selection, find_row, visible_rows}
use rookietop.App.Actions.{
  refresh_overview, prepare_learn_from_view, begin_process_search, apply_process_search,
  edit_process_search,
}
use rookietop.App.Handlers.{
  is_key, on_overview, open_selected, processes_key, processes_sampled, on_processes,
  on_process_search, stop_key,
}
use rookietop.App.Valid.{
  AreValid, IsValid, with_notice, with_lesson, with_return, with_search, with_view, if-IsValid,
  set_notice-IsValid, select_row-IsValid, open_selected_detail-IsValid,
  open_confirm_from_detail-IsValid,
}

module _ (f : Float) where
  align_selection-IsValid :
      (state : AppState f) (rows : List (ProcessRow f))
      → IsValid f state
      → IsValid f (align_selection f state rows)
  unfolding align_selection
  align_selection-IsValid state [] v = record { parts = v.parts }
  align_selection-IsValid state (row ∷ rest) v =
      let rows = row ∷ rest in
      let clamped : AppState f =
        if leb (length rows) state.selected
        then record state { selected = length rows - 1 }
        else state in
      let aligned =
        select_row-IsValid f clamped rows
          (if-IsValid f (leb (length rows) state.selected) (record { parts = v.parts }) v) in
      elim (Bool-cases (ltb 0 state.selected_pid)) [
        | inr no_pid ↦ rw no_pid aligned
        | inl a_pid ↦
            elim (Option-cases (find_row f state.selected_pid state.selected_starttime rows)) [
              | inl e ↦ rw (a_pid, e) aligned
              | inr (i, e) ↦ rw (a_pid, e) (record { parts = v.parts })
            ]
      ]

  open_selected-IsValid :
      (fs : ProcFs) (state : AppState f) (rows : List (ProcessRow f)) (screen : Screen)
      → IsValid f state
      → IsValid f (open_selected f fs state rows screen)
  unfolding open_selected
  open_selected-IsValid fs state rows screen v =
      elim (Option-cases (get_elem? rows state.selected)) [
        | inl e ↦ rw (e, open_selected) v
        | inr (row, e) ↦
            rw (e, open_selected)
              (open_selected_detail-IsValid f fs state row.pid row.starttime screen v)
      ]

  begin_process_search-IsValid :
      (state : AppState f) → IsValid f state → IsValid f (begin_process_search f state)
  unfolding begin_process_search
  begin_process_search-IsValid state v = record {
    parts =
        (with_search f state state.search (take 63 state.search) v.parts.search_fits
          (omega (arith, length-take 63 state.search)) v).parts;
  }

  processes_key-IsValid :
      (fs : ProcFs) (key : Option ℕ) (state : AppState f) (rows : List (ProcessRow f))
      → IsValid f state
      → IsValid f (processes_key f fs key state rows)
  unfolding processes_key
  processes_key-IsValid fs key state rows v =
      let moved = λ (s : AppState f) (w : IsValid f s). select_row-IsValid f s rows w in
      let opened = λ (screen : Screen). open_selected-IsValid fs state rows screen v in
      let any = ltb 0 (length rows) in
      let plain : (s : AppState f)
          → AreValid f s.lesson s.learn_selected s.return_screen s.search s.search_draft s.notice
              s.history
          → IsValid f s =
        λ s p. record { parts = p } in
      if-IsValid f (is_key key input_up && any)
        (moved _ (if-IsValid f (ltb 0 state.selected) (plain _ v.parts) v))
        (if-IsValid f (is_key key input_down && any)
          (moved _ (if-IsValid f (ltb (state.selected + 1) (length rows)) (plain _ v.parts) v))
          (if-IsValid f (is_key key input_enter && any) (opened screen_detail) (
            if-IsValid f (is_key key b'?' && any) (opened screen_process_learn) (
              if-IsValid f (is_key key b'k' && any) (opened screen_confirm_term) (
                if-IsValid f (is_key key b'K' && any) (opened screen_confirm_kill) (
                  if-IsValid f (is_key key b'/') (begin_process_search-IsValid state v) (
                    if-IsValid f (is_key key b'c') (plain _ v.parts) (
                      if-IsValid f (is_key key b'm') (plain _ v.parts) (
                        if-IsValid f (is_key key b'p') (plain _ v.parts) (
                          if-IsValid f (is_key key b'n') (plain _ v.parts) (
                            if-IsValid f (is_key key b'l' || is_key key b'L')
                              (plain _ (with_return f state screen_processes (inr refl) v).parts)
                              (if-IsValid f (is_key key input_escape) (plain _ v.parts)
                                v))))))))))))

  pub on_overview-IsValid :
      (frame : Frame f) (state : AppState f)
      → IsValid f state
      → IsValid f (on_overview f frame state).state
  unfolding on_overview refresh_overview prepare_learn_from_view
  on_overview-IsValid frame state v = elim (Option-cases frame.overview) [
    | inl e ↦ rw e (record { parts = v.parts })
    | inr (view, e) ↦
        let pushed = history_push state.history view.cpu_percent view.memory_percent in
        let refreshed : AppState f = record state {
          view = view;
          view_ok = true;
          history = pushed;
        } in
        let w : IsValid f refreshed = record {
          parts =
              (with_view f state pushed
                (history_push-IsHistory state.history view.cpu_percent view.memory_percent
                  v.parts.a_history)
                v).parts;
        } in
        let lesson = diagnosis_lesson-lt f view in
        let learn =
          with_return f
            (record refreshed {
              lesson = diagnosis_lesson f view;
              learn_selected = diagnosis_lesson f view;
            })
            screen_overview (inl refl)
            (with_lesson f refreshed (diagnosis_lesson f view) (diagnosis_lesson f view) lesson
              lesson w) in
        let cleared = with_notice f refreshed [] (omega arith) w in
        rw e (
          if-IsValid f (is_key frame.key b'p') (record { parts = cleared.parts })
            (if-IsValid f (is_key frame.key b'?' || is_key frame.key b'l' || is_key frame.key b'L')
              (record { parts = learn.parts }) w))
  ]

  pub on_processes-IsValid :
      (qsort : Qsort f) (frame : Frame f) (state : AppState f)
      → IsValid f state
      → IsValid f (on_processes f qsort frame state).state
  unfolding on_processes processes_sampled
  on_processes-IsValid qsort frame state v = elim (Option-cases frame.rows) [
    | inl e ↦
        let noticed =
          set_notice-IsValid f state (codes "RookieTop could not read the process list.") v in
        rw e (
          processes_key-IsValid frame.fs_after frame.key _ []
            (align_selection-IsValid _ [] noticed))
    | inr (rows, e) ↦
        let visible = visible_rows f qsort rows state in
        rw e (
          processes_key-IsValid frame.fs_after frame.key _ visible
            (align_selection-IsValid state visible v))
  ]

  edit_process_search-IsValid :
      (state : AppState f) (key : Option ℕ)
      → IsValid f state
      → IsValid f (edit_process_search f state key)
  unfolding edit_process_search
  edit_process_search-IsValid state none v = v
  edit_process_search-IsValid state (some key) v =
      let len = length state.search_draft in
      let shorter = take (len - 1) state.search_draft in
      let room = leb key 255 && is_print key && ltb (len + 1) process_search_max in
      let fits = v.parts.draft_fits in
      elim (Bool-cases (key == 8 || key == 127)) [
        | inl erase ↦ rw erase (record {
          parts =
              (with_search f state state.search shorter v.parts.search_fits
                (omega (arith, length-take (len - 1) state.search_draft, fits)) v).parts;
        })
        | inr typed ↦ elim (Bool-cases room) [
          | inl more ↦
              rw (typed, more)
                (record {
                  parts =
                      (with_search f state state.search (state.search_draft ++ key ∷ [])
                        v.parts.search_fits
                        (ground (arith, length-append state.search_draft (key ∷ []), more))
                        v).parts;
                })
          | inr full ↦ rw (typed, full) v
        ]
      ]

  pub on_process_search-IsValid :
      (frame : Frame f) (state : AppState f)
      → IsValid f state
      → IsValid f (on_process_search f frame state).state
  unfolding on_process_search apply_process_search
  on_process_search-IsValid frame state v =
      let searched =
        with_search f state (take 63 state.search_draft) state.search_draft
          (omega (arith, length-take 63 state.search_draft)) v.parts.draft_fits v in
      let cleared =
        with_notice f (record state { search = take 63 state.search_draft }) [] (omega arith)
          (record { parts = searched.parts }) in
      if-IsValid f (is_key frame.key input_enter) (record { parts = cleared.parts })
        (if-IsValid f (is_key frame.key input_escape) (record { parts = v.parts })
          (edit_process_search-IsValid state frame.key v))

  pub stop_key-IsValid :
      (fs : ProcFs) (key : Option ℕ) (state : AppState f)
      → IsValid f state
      → IsValid f (stop_key f fs key state)
  unfolding stop_key
  stop_key-IsValid fs key state v =
      if-IsValid f (is_key key b'k') (open_confirm_from_detail-IsValid f fs state false v) (
        if-IsValid f (is_key key b'K') (open_confirm_from_detail-IsValid f fs state true v)
          (if-IsValid f (is_key key input_escape) (record { parts = v.parts }) v))
