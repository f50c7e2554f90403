-- ===== src/App/Valid.antt =====
-- The members of the state that are valid, and the actions that keep them so.
use rookietop.Common.{
  ℕ, ◌<◌, ◌≡◌, Bool, true, false, List, Option, none, some, ◌==◌, if◌then◌else◌, arith, ◌⊎◌, inl,
  inr, Option-cases, Bool-cases, length, take, length-take, get_elem?,
}
use rookietop.Libc.Chars.{Bytes}
use mathlib.Core.Path.{subst}
use rookietop.Libc.Float.{Float}
use rookietop.ProcFs.{ProcFs}
use rookietop.ProcessList.{ProcessRow, process_detail_read, SignalResult, KillAnswer, KillCall}
use rookietop.Teaching.{teach_count}
use rookietop.App.State.{Screen, screen_overview, screen_processes, AppState, process_search_max}
use rookietop.App.History.{MetricHistory}
use rookietop.App.History.Recent.{IsHistory}
use rookietop.App.Rows.{select_row}
use rookietop.App.Actions.{
  set_notice, set_signal_notice, refresh_selected_detail, open_selected_detail,
  open_confirm_from_detail, handle_signal_confirm,
}

module _ (f : Float) where
  -- What is valid of the members of the state that the screens share.
  pub record AreValid (lesson learn_selected : ℕ) (return_screen : Screen)
      (search search_draft notice : Bytes) (history : MetricHistory f.Double) : Type 0 where
    pub a_lesson : lesson < teach_count
    pub a_choice : learn_selected < teach_count
    pub returns : (return_screen ≡ screen_overview) ⊎ (return_screen ≡ screen_processes)
    pub search_fits : length search < process_search_max
    pub draft_fits : length search_draft < process_search_max
    pub notice_fits : length notice < 192
    pub a_history : IsHistory history

  pub record IsValid (s : AppState f) : Type 0 where
    pub parts :
        AreValid s.lesson s.learn_selected s.return_screen s.search s.search_draft s.notice
          s.history

  pub with_notice :
      (state : AppState f) (notice : Bytes)
      → length notice < 192
      → IsValid state
      → IsValid (record state { notice = notice })
  with_notice state notice h v =
      let p = v.parts in
      record {
        parts = record {
          a_lesson = p.a_lesson;
          a_choice = p.a_choice;
          returns = p.returns;
          search_fits = p.search_fits;
          draft_fits = p.draft_fits;
          notice_fits = h;
          a_history = p.a_history;
        };
      }

  pub with_lesson :
      (state : AppState f) (lesson choice : ℕ)
      → lesson < teach_count
      → choice < teach_count
      → IsValid state
      → IsValid (record state { lesson = lesson; learn_selected = choice })
  with_lesson state lesson choice h k v =
      let p = v.parts in
      record {
        parts = record {
          a_lesson = h;
          a_choice = k;
          returns = p.returns;
          search_fits = p.search_fits;
          draft_fits = p.draft_fits;
          notice_fits = p.notice_fits;
          a_history = p.a_history;
        };
      }

  pub with_return :
      (state : AppState f) (screen : Screen)
      → (screen ≡ screen_overview) ⊎ (screen ≡ screen_processes)
      → IsValid state
      → IsValid (record state { return_screen = screen })
  with_return state screen h v =
      let p = v.parts in
      record {
        parts = record {
          a_lesson = p.a_lesson;
          a_choice = p.a_choice;
          returns = h;
          search_fits = p.search_fits;
          draft_fits = p.draft_fits;
          notice_fits = p.notice_fits;
          a_history = p.a_history;
        };
      }

  pub with_search :
      (state : AppState f) (search draft : Bytes)
      → length search < process_search_max
      → length draft < process_search_max
      → IsValid state
      → IsValid (record state { search = search; search_draft = draft })
  with_search state search draft h k v =
      let p = v.parts in
      record {
        parts = record {
          a_lesson = p.a_lesson;
          a_choice = p.a_choice;
          returns = p.returns;
          search_fits = h;
          draft_fits = k;
          notice_fits = p.notice_fits;
          a_history = p.a_history;
        };
      }

  pub with_view :
      (state : AppState f) (history : MetricHistory f.Double)
      → IsHistory history
      → IsValid state
      → IsValid (record state { history = history })
  with_view state history h v =
      let p = v.parts in
      record {
        parts = record {
          a_lesson = p.a_lesson;
          a_choice = p.a_choice;
          returns = p.returns;
          search_fits = p.search_fits;
          draft_fits = p.draft_fits;
          notice_fits = p.notice_fits;
          a_history = h;
        };
      }

  pub if-IsValid :
      (test : Bool) {yes no : AppState f}
      → IsValid yes
      → IsValid no
      → IsValid (if test then yes else no)
  if-IsValid true y n = y
  if-IsValid false y n = n

  pub set_notice-IsValid :
      (state : AppState f) (message : Bytes) → IsValid state → IsValid (set_notice f state message)
  unfolding set_notice
  set_notice-IsValid state message v =
      with_notice state (take 191 message) (omega (arith, length-take 191 message)) v

  pub set_signal_notice-IsValid :
      (state : AppState f) (result : SignalResult) (force : Bool) (name : Bytes)
      → IsValid state
      → IsValid (set_signal_notice f state result force name)
  unfolding set_signal_notice
  set_signal_notice-IsValid state SignalResult.ok force name v = set_notice-IsValid state _ v
  set_signal_notice-IsValid state SignalResult.permission force name v =
      set_notice-IsValid state _ v
  set_signal_notice-IsValid state SignalResult.reused force name v = set_notice-IsValid state _ v
  set_signal_notice-IsValid state SignalResult.gone force name v = set_notice-IsValid state _ v
  set_signal_notice-IsValid state SignalResult.error force name v = set_notice-IsValid state _ v

  pub select_row-IsValid :
      (state : AppState f) (rows : List (ProcessRow f))
      → IsValid state
      → IsValid (select_row f state rows)
  unfolding select_row
  select_row-IsValid state rows v = elim (Option-cases (get_elem? rows state.selected)) [
    | inl e ↦ rw (e, select_row) v
    | inr (row, e) ↦ rw (e, select_row) (record { parts = v.parts })
  ]

  -- What refresh_selected_detail leaves, if anything, is valid.
  unfoldable pub SomeValid : Option (AppState f) → Type 0
  SomeValid none = Unit
  SomeValid (some state) = IsValid state

  pub refresh_selected_detail-SomeValid :
      (fs : ProcFs) (state : AppState f)
      → IsValid state
      → SomeValid (refresh_selected_detail f fs state)
  unfolding SomeValid refresh_selected_detail
  refresh_selected_detail-SomeValid fs state v =
      elim (Option-cases (process_detail_read f fs state.selected_pid)) [
        | inl e ↦ rw (e, refresh_selected_detail) tt
        | inr (detail, e) ↦ elim (Bool-cases (detail.row.starttime == state.selected_starttime)) [
          | inl same ↦ rw (e, refresh_selected_detail, same) (record { parts = v.parts })
          | inr other ↦ rw (e, refresh_selected_detail, other) tt
        ]
      ]

  pub open_selected_detail-IsValid :
      (fs : ProcFs) (state : AppState f) (pid starttime : ℕ) (screen : Screen)
      → IsValid state
      → IsValid (open_selected_detail f fs state pid starttime screen)
  unfolding open_selected_detail
  open_selected_detail-IsValid fs state pid starttime screen v =
      let failed : (s : AppState f) (message : Bytes)
          → IsValid s
          → IsValid (record (set_notice f s message) { screen = screen_processes }) =
        λ s message w. record { parts = (set_notice-IsValid s message w).parts } in
      elim (Option-cases (process_detail_read f fs pid)) [
        | inl e ↦ rw (e, open_selected_detail) (failed _ _ (record { parts = v.parts }))
        | inr (detail, e) ↦
            rw (e, open_selected_detail)
              (if-IsValid (detail.row.starttime == starttime) (record { parts = v.parts })
                (failed _ _ (record { parts = v.parts })))
      ]

  pub open_confirm_from_detail-IsValid :
      (fs : ProcFs) (state : AppState f) (force : Bool)
      → IsValid state
      → IsValid (open_confirm_from_detail f fs state force)
  unfolding SomeValid open_confirm_from_detail
  open_confirm_from_detail-IsValid fs state force v =
      let valid = refresh_selected_detail-SomeValid fs state v in
      elim (Option-cases (refresh_selected_detail f fs state)) [
        | inl e ↦
            rw (e, open_confirm_from_detail)
              (record { parts = (set_notice-IsValid state _ v).parts })
        | inr (refreshed, e) ↦
            let w : IsValid refreshed = subst SomeValid e valid in
            rw (e, open_confirm_from_detail) (record { parts = w.parts })
      ]

  pub handle_signal_confirm-IsValid :
      (kill : KillCall → KillAnswer) (own_pid : ℕ) (fs : ProcFs) (state : AppState f) (force : Bool)
      → IsValid state
      → IsValid (handle_signal_confirm f kill own_pid fs state force).0
  unfolding handle_signal_confirm
  handle_signal_confirm-IsValid kill own_pid fs state force v =
      elim (Bool-cases (state.selected_detail.row.pid == own_pid)) [
        | inl own ↦ rw own (record { parts = (set_notice-IsValid state _ v).parts })
        | inr other ↦
            rw other (record { parts = (set_signal_notice-IsValid state _ force _ v).parts })
      ]
