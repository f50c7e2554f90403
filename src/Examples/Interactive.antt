-- ===== src/Examples/Interactive.antt =====
-- The signal, the details, and the rounds of the interactive program.
use rookietop.Common.{
  ℕ, ◌+◌, ◌≤◌, ◌<◌, ◌≡◌, ◌≢◌, ◌⊎◌, refl, true, false, List, [], ◌∷◌, none, some, arith, length,
}
use rookietop.Libc.Chars.{
  Bytes, codes, strip_prefix, trim_end, skip_while, is_blank, is_line_end, is_space, c_string,
  str_eq, take_until,
}
use rookietop.Libc.Numbers.{conversions}
use rookietop.Libc.Decimal.{decimal, digits_below}
use rookietop.Libc.Files.{lines, fgets_loop}
use rookietop.Reading.{amount}
use rookietop.ProcFs.{open_proc}
use rookietop.ProcessList.{
  ProcessRow, ProcessDetail, read_starttime, scan_threads, scan_state, scan_name, parse_status_line,
  row_lines, read_row, sigterm, read_cmdline, bracketed, command_of, process_detail_read, KillCall,
  process_send_signal,
}
use rookietop.ProcessList.Signal.{process_send_signal_safe, IsRequest}
use rookietop.ProcessList.Details.{process_detail_read-eq-some}
use rookietop.App.State.{screen_confirm_term, AppState, Frame, initial}
use rookietop.App.History.Recent.{
  recent, last, IsHistory, history_push_all, history_push_all-recent,
}
use rookietop.App.Rows.{Qsort, align_selection}
use rookietop.App.Actions.{refresh_overview, refresh_selected_detail, handle_signal_confirm}
use rookietop.App.Handlers.{on_confirm, on_overview}
use rookietop.App.Step.{step, handle_screen, end_of_round}
use rookietop.App.Signals.{IsAsked, step-IsAsked}
use rookietop.App.Reachable.{Reaches, Reaches-IsValid}
use rookietop.App.Valid.{IsValid}
use rookietop.App.Selection.{Selects, NoRow, align_selection-Selects}
use rookietop.App.State.{sort_name, sort_cpu}
use rookietop.App.Rows.{comparison}
use rookietop.App.Order.{IsComparison, comparison-IsComparison}
use rookietop.Teaching.{TeachingTopic, teaching_get}
use rookietop.Teaching.Lessons.{IsTold}
use rookietop.App.Quits.{Quits, Reaches-Quits}
use rookietop.App.Lessons.{Reaches-IsTold}
use rookietop.Libc.Format.{IsPart}
use rookietop.Render.Details.Signal.{on_confirm-IsPart}
use rookietop.Render.Processes.{render_processes}
use rookietop.Render.Processes.Marked.{marked, render_processes-IsPart}
use rookietop.Render.Learning.{render_lesson}
use rookietop.Render.Learning.Ends.{render_lesson-eq-some}
use rookietop.Examples.Data.{naturals, small_proc, kill_sends, read_process_stat-7, quiet_view}

abbrev no_more : List KillCall
no_more = []

abbrev term_7 : KillCall
term_7 = record { pid = 7; signal_number = 15 }

starttime_7 : read_starttime small_proc 7 ≡ some 900
unfolding read_starttime
starttime_7 = rw read_process_stat-7 refl

sent_7 : (process_send_signal kill_sends small_proc 7 900 15).1 ≡ term_7 ∷ []
unfolding process_send_signal
sent_7 = rw starttime_7 refl

process_send_signal_safe_example :
    (no_more ≡ [])
    × (term_7 ≡ record { pid = 7; signal_number = 15 })
    × IsRequest kill_sends small_proc 7 900 15
    × (read_starttime small_proc 7 ≡ some 900)
process_send_signal_safe_example =
    process_send_signal_safe kill_sends small_proc 7 900 15 term_7 [] sent_7

abbrev detail_7 : ProcessDetail naturals
detail_7 = record {
  row = record {
    pid = 7;
    name = codes "sh";
    state = b'S';
    threads = 1;
    rss_kib = 512;
    starttime = 900;
    cpu_percent = 0;
  };
  command = codes "[sh]";
}

detail_read : process_detail_read naturals small_proc 7 ≡ some detail_7
unfolding process_detail_read read_row open_proc lines fgets_loop c_string row_lines
    parse_status_line scan_threads scan_state scan_name amount conversions decimal digits_below
    str_eq skip_while take_until trim_end strip_prefix is_space is_blank is_line_end read_cmdline
    bracketed command_of
detail_read = rw starttime_7 refl

process_detail_read-eq-some_example :
    (0 < 7)
    × (detail_7.row.pid ≡ 7)
    × (0 < length detail_7.row.name)
    × (length detail_7.row.name < 64)
    × (read_starttime small_proc 7 ≡ some 900)
    × (0 < length detail_7.command)
    × (length detail_7.command ≤ 255)
process_detail_read-eq-some_example = process_detail_read-eq-some naturals small_proc 7 detail_read

abbrev same_order : Qsort naturals
same_order compare rows = rows

abbrev confirming : AppState naturals
confirming = record (initial naturals) {
  screen = screen_confirm_term;
  selected_pid = 7;
  selected_starttime = 900;
}

abbrev frame_of : ℕ → Frame naturals
frame_of key = record {
  overview = some quiet_view;
  rows = some [];
  fs_before = small_proc;
  fs_after = small_proc;
  key = some key;
  term_rows = 24;
  term_cols = 80;
  use_color = true;
}

abbrev refreshed : AppState naturals
refreshed = record confirming { selected_detail = detail_7 }

refreshed_7 : refresh_selected_detail naturals small_proc confirming ≡ some refreshed
unfolding refresh_selected_detail
refreshed_7 = rw (detail_read, refresh_selected_detail) refl

handled_7 :
    (handle_signal_confirm naturals kill_sends 100 small_proc refreshed false).1 ≡ term_7 ∷ []
unfolding handle_signal_confirm
handled_7 = rw sent_7 refl

confirm_round :
    (on_confirm naturals kill_sends 100 false (frame_of b'y') confirming).calls ≡ term_7 ∷ []
unfolding on_confirm
confirm_round = rw (refreshed_7, on_confirm) handled_7

confirmed_calls :
    (step naturals same_order kill_sends 100 (frame_of b'y') confirming).calls ≡ term_7 ∷ []
unfolding step handle_screen
confirmed_calls = confirm_round

step-IsAsked_example : IsAsked naturals 100 (frame_of b'y') confirming term_7 []
step-IsAsked_example =
    step-IsAsked naturals same_order kill_sends 100 (frame_of b'y') confirming term_7 []
      confirmed_calls

overview_runs :
    (step naturals same_order kill_sends 100 (frame_of b'p') (initial naturals)).exit ≡ none
unfolding step handle_screen on_overview refresh_overview end_of_round
overview_runs = refl

Reaches-IsValid_example :
    IsValid naturals
      (step naturals same_order kill_sends 100 (frame_of b'p') (initial naturals)).state
Reaches-IsValid_example =
    Reaches-IsValid naturals same_order kill_sends 100
      (Reaches.then_frame (frame_of b'p') Reaches.begins overview_runs)

abbrev row_at : ℕ → ℕ → ProcessRow naturals
row_at pid starttime = record {
  pid = pid;
  name = codes "sh";
  state = b'S';
  threads = 1;
  rss_kib = 8;
  starttime = starttime;
  cpu_percent = 0;
}

abbrev shown : List (ProcessRow naturals)
shown = row_at 5 60 ∷ row_at 7 900 ∷ []

align_selection-Selects_example :
    let aligned = align_selection naturals confirming shown in
    ((row : ProcessRow naturals) × Selects naturals aligned shown row)
    × ((confirming.selected_pid ≡ 0)
        ⊎ (((aligned.selected_pid ≡ 7) × (aligned.selected_starttime ≡ 900))
            ⊎ NoRow naturals 7 900 shown))
align_selection-Selects_example = align_selection-Selects naturals confirming shown (omega arith)

no_history-IsHistory : IsHistory (initial naturals).history
no_history-IsHistory = record { cpu_cells = refl; memory_cells = refl; in_range = omega arith }

history_push_all-recent_example :
    let after = history_push_all ((4, 40) ∷ (90, 41) ∷ []) (initial naturals).history in
    IsHistory after
    × (recent after.count after.cpu ≡ last (4 ∷ 90 ∷ []))
    × (recent after.count after.memory ≡ last (40 ∷ 41 ∷ []))
unfolding recent last
history_push_all-recent_example =
    history_push_all-recent ((4, 40) ∷ (90, 41) ∷ []) [] [] (initial naturals).history
      no_history-IsHistory refl refl

by_name : sort_name ≢ sort_cpu
by_name = ground arith

comparison-IsComparison_example : IsComparison naturals (comparison naturals sort_name)
comparison-IsComparison_example = comparison-IsComparison naturals sort_name by_name

Reaches-Quits_example :
    let next = (step naturals same_order kill_sends 100 (frame_of 1003) (initial naturals)).state in
    Quits naturals same_order kill_sends 100
      (frame_of b'q')
      next
      (step naturals same_order kill_sends 100 (frame_of b'q') next).exit
Reaches-Quits_example =
    Reaches-Quits naturals same_order kill_sends 100 (initial naturals) (frame_of 1003)
      (frame_of b'q') Reaches.begins refl refl

Reaches-IsTold_example :
    ((topic : TeachingTopic) × (teaching_get 0 ≡ some topic) × IsTold topic)
    × ((topic : TeachingTopic) × (teaching_get 0 ≡ some topic) × IsTold topic)
Reaches-IsTold_example = Reaches-IsTold naturals same_order kill_sends 100 Reaches.begins

on_confirm-IsPart_example :
    (state : AppState naturals) × (refresh_selected_detail naturals small_proc confirming
      ≡ some state)
    × (state.selected_detail.row.pid ≡ 7)
    × (term_7.signal_number ≡ sigterm)
    × ((screen : Bytes) × ((on_confirm naturals kill_sends 100 false
            (frame_of b'y')
            confirming).drawn
          ≡ some screen)
        × IsPart state.selected_detail.row.name screen
        × IsPart (codes "Linux signal: SIGTERM") screen)
on_confirm-IsPart_example =
    on_confirm-IsPart naturals kill_sends 100 false (frame_of b'y') confirming term_7 []
      confirm_round

-- The second row is selected.
abbrev second_selected : AppState naturals
second_selected = record (initial naturals) { selected = 1 }

render_processes-IsPart_example :
    (line : ℕ) × IsPart
      (marked naturals false line 80 (row_at 7 900))
      (render_processes naturals false 24 80 shown 2 second_selected)
    × (line + 10 < 24)
render_processes-IsPart_example =
    render_processes-IsPart naturals false 24 80 2 shown second_selected (row_at 7 900)
      (omega arith) refl

render_lesson-eq-some_example :
    (out : Bytes) × (render_lesson naturals false 24 80 (initial naturals) ≡ some out)
render_lesson-eq-some_example = render_lesson-eq-some naturals false 24 80 (initial naturals)
