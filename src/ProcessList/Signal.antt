-- ===== src/ProcessList/Signal.antt =====
-- When process_send_signal calls kill(2).
use rookietop.Common.{ℕ, ◌<◌, ◌≡◌, List, [], ◌∷◌, some, arith, ◌⊎◌, ◌↔◌}
use rookietop.ProcFs.{ProcFs}
use rookietop.ProcessList.{
  read_starttime, Alive, process_same_instance_alive, sigterm, sigkill, KillAnswer, KillCall,
  process_send_signal,
}

module _ (kill : KillCall → KillAnswer) (fs : ProcFs) (pid starttime signal_number : ℕ) where
  -- The request is one that may be sent.
  abbrev pub IsRequest : Type 0
  IsRequest = (0 < pid) × (0 < starttime) × ((signal_number ≡ sigterm) ⊎ (signal_number ≡ sigkill))

  -- Whenever process_send_signal calls kill(2), it calls it once, with the pid and the signal that
  -- it was given, of which the signal is SIGTERM or SIGKILL, and it has just read the expected
  -- start time for that pid.
  pub process_send_signal_safe :
      (call : KillCall) (more : List KillCall)
      → (process_send_signal kill fs pid starttime signal_number).1 ≡ call ∷ more
      → (more ≡ [])
        × (call ≡ record { pid = pid; signal_number = signal_number })
        × IsRequest
        × (read_starttime fs pid ≡ some starttime)
  unfolding process_send_signal
  process_send_signal_safe call more h = ground arith

  -- A valid request leads to a call of kill(2) exactly when process_same_instance_alive says that
  -- the process is still the same.
  pub process_send_signal-alive :
      IsRequest
      → (process_same_instance_alive fs pid starttime ≡ Alive.alive) ↔ (
          (process_send_signal kill fs pid starttime signal_number).1
          ≡ record { pid = pid; signal_number = signal_number } ∷ [])
  unfolding process_send_signal process_same_instance_alive
  process_send_signal-alive h = ground arith
