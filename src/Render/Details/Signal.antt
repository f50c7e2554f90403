-- ===== src/Render/Details/Signal.antt =====
-- The confirmation says which process gets which signal.
use rookietop.Common.{ℕ, ◌≡◌, refl, ap, sym, Bool, List, ◌∷◌, some, arith, if◌then◌else◌}
use rookietop.Libc.Chars.{Bytes, codes}
use rookietop.Libc.Float.{Float}
use rookietop.Libc.Format.{IsPart, printed-IsPart}
use rookietop.ProcessList.{ProcessDetail, sigterm, sigkill, KillAnswer, KillCall}
use rookietop.ProcessList.Signal.{process_send_signal_safe}
use rookietop.App.State.{AppState, Frame}
use rookietop.App.Actions.{refresh_selected_detail}
use rookietop.App.Handlers.{on_confirm}
use rookietop.App.Signals.{on_confirm-calls, handle_signal_confirm-calls}
use rookietop.Render.Details.{signal_line, render_confirm}

module _ (f : Float) where
  render_confirm-IsPart :
      (use_color : Bool) (term_rows term_cols : ℕ) (force : Bool) (detail : ProcessDetail f)
      → let screen = render_confirm f use_color term_rows term_cols force detail in
        IsPart detail.row.name screen × IsPart (signal_line f use_color force) screen
  unfolding render_confirm
  render_confirm-IsPart use_color term_rows term_cols force detail = (
    printed-IsPart _ 4 detail.row.name refl,
    printed-IsPart _ 10 (signal_line f use_color force) refl,
  )

  on_confirm-drawn :
      (kill : KillCall → KillAnswer) (own_pid : ℕ) (force : Bool) (frame : Frame f)
      (state refreshed : AppState f)
      → refresh_selected_detail f frame.fs_before state ≡ some refreshed
      → (on_confirm f kill own_pid force frame state).drawn
        ≡ some (
            render_confirm f frame.use_color frame.term_rows frame.term_cols force
              refreshed.selected_detail)
  unfolding on_confirm
  on_confirm-drawn kill own_pid force frame state refreshed e = ground (arith, e)

  -- If a round on a confirmation screen calls kill(2), the screen that it has drawn shows the name of
  -- the process with the pid of that call, as it was read before the key, and names its signal:
  -- SIGKILL on the screen for force, SIGTERM on the other.
  pub on_confirm-IsPart :
      (kill : KillCall → KillAnswer) (own_pid : ℕ) (force : Bool) (frame : Frame f)
      (state : AppState f) (call : KillCall) (more : List KillCall)
      → (on_confirm f kill own_pid force frame state).calls ≡ call ∷ more
      → (refreshed : AppState f) × (refresh_selected_detail f frame.fs_before state
          ≡ some refreshed)
        × (refreshed.selected_detail.row.pid ≡ call.pid)
        × (call.signal_number ≡ (if force then sigkill else sigterm))
        × ((screen : Bytes) × ((on_confirm f kill own_pid force frame state).drawn ≡ some screen)
            × IsPart refreshed.selected_detail.row.name screen
            × IsPart
                (if force then codes "Linux signal: SIGKILL" else codes "Linux signal: SIGTERM")
                screen)
  on_confirm-IsPart kill own_pid force frame state call more h =
      let (refreshed, e, key, sent) =
        on_confirm-calls f kill own_pid force frame state call more h in
      let row = refreshed.selected_detail.row in
      let (other, called) =
        handle_signal_confirm-calls f kill own_pid frame.fs_after refreshed force call more sent in
      let (single, same, _, after) =
        process_send_signal_safe kill frame.fs_after row.pid row.starttime
          (if force then sigkill else sigterm) call more called in
      let (named, signalled) =
        render_confirm-IsPart frame.use_color frame.term_rows frame.term_cols force
          refreshed.selected_detail in
      (
        refreshed,
        e,
        sym (ap (λ (c : KillCall). c.pid) same),
        ap (λ (c : KillCall). c.signal_number) same,
        (
          render_confirm f frame.use_color frame.term_rows frame.term_cols force
              refreshed.selected_detail,
          on_confirm-drawn kill own_pid force frame state refreshed e,
          named,
          signalled,
        ),
      )
