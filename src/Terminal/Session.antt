-- ===== src/Terminal/Session.antt =====
-- The settings of the terminal, from the start of run_interactive to the exit of the program:
-- terminal_input_enable and terminal_input_restore of src/terminal_input.c, restore_terminal and the
-- frame of run_interactive in src/main.c.
use rookietop.Common.{ℕ, ◌≡◌, Bool, true, false, not, if◌then◌else◌, arith}

-- `struct termios`: the members that the program changes, and all others.
pub record Termios : Type 0 where
  pub icanon : Bool
  pub echo : Bool
  pub ixon : Bool
  pub icrnl : Bool
  pub vmin : ℕ
  pub vtime : ℕ
  pub others : ℕ

-- `struct terminal_input`
pub record TerminalInput : Type 0 where
  pub saved : Termios
  pub active : Bool

-- The terminal, with its settings and whether it shows the alternate screen without a cursor; and
-- the two globals of the program.
pub record Session : Type 0 where
  pub settings : Termios
  pub alternate : Bool
  pub input_state : TerminalInput
  pub terminal_active : Bool

-- Whether the calls of signal(2), atexit(3), tcgetattr(3) and tcsetattr(3) succeed.
pub record Calls : Type 0 where
  pub signal_ok : Bool
  pub atexit_ok : Bool
  pub tcgetattr_ok : Bool
  pub tcsetattr_ok : Bool

-- The settings without lines, echo, flow control and the translation of the return key.
abbrev pub raw_of : Termios → Termios
raw_of saved = record saved {
  icanon = false;
  echo = false;
  ixon = false;
  icrnl = false;
  vmin = 0;
  vtime = 0;
}

-- The session behind the call, and whether it returns 0. A tcsetattr that fails changes nothing.
unfoldable pub terminal_input_enable : Calls → Session → Session × Bool
terminal_input_enable calls s =
    let input : TerminalInput = record { saved = s.settings; active = s.input_state.active } in
    if not calls.tcgetattr_ok
    then (s, false)
    else if not calls.tcsetattr_ok
    then (record s { input_state = input }, false)
    else (
      record s {
        settings = raw_of s.settings;
        input_state = record { saved = s.settings; active = true };
      },
      true,
    )

-- `restored` is whether tcsetattr succeeds here.
unfoldable pub terminal_input_restore : Bool → Session → Session
terminal_input_restore restored s =
    let input = s.input_state in
    if input.active
    then record s {
      settings = if restored then input.saved else s.settings;
      input_state = record { saved = input.saved; active = false };
    }
    else s

unfoldable pub restore_terminal : Bool → Session → Session
restore_terminal restored s =
    let after = terminal_input_restore restored s in
    if after.terminal_active
    then record after { alternate = false; terminal_active = false }
    else after

-- What a run leaves: the session, the result, and whether restore_terminal runs at the exit.
pub record Finished : Type 0 where
  pub session : Session
  pub result : ℕ
  pub registered : Bool

-- The frame of run_interactive: `loop` is what its loop returns, which changes neither the settings
-- nor the globals.
unfoldable pub run_interactive : Calls → ℕ → Session → Finished
run_interactive calls loop s =
    let (enabled, ok) = terminal_input_enable calls s in
    if not calls.signal_ok
    then record { session = s; result = 1; registered = false }
    else if not calls.atexit_ok
    then record { session = s; result = 1; registered = false }
    else if not ok
    then record { session = enabled; result = 1; registered = true }
    else record {
      session = record enabled { alternate = true; terminal_active = true };
      result = loop;
      registered = true;
    }

-- The exit of the program runs what is registered.
unfoldable pub at_exit : Bool → Finished → Session
at_exit restored finished =
    if finished.registered then restore_terminal restored finished.session else finished.session

-- The session in which the program starts: its globals are 0.
abbrev pub fresh : Termios → Session
fresh settings = record {
  settings = settings;
  alternate = false;
  input_state = record {
    saved = record {
      icanon = false;
      echo = false;
      ixon = false;
      icrnl = false;
      vmin = 0;
      vtime = 0;
      others = 0;
    };
    active = false;
  };
  terminal_active = false;
}

-- However run_interactive ends, after the exit of the program the terminal has the settings that it
-- had at the start and shows its normal screen, if the last tcsetattr succeeds.
pub at_exit-run_interactive :
    (calls : Calls) (loop : ℕ) (settings : Termios)
    → let after = at_exit true (run_interactive calls loop (fresh settings)) in
      (after.settings ≡ settings) × (after.alternate ≡ false) × (after.input_state.active ≡ false)
unfolding at_exit run_interactive restore_terminal terminal_input_restore terminal_input_enable
at_exit-run_interactive calls loop settings = (ground arith, ground arith, ground arith)
