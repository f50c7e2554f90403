-- ===== src/Main.antt =====
-- main and run_monitor of src/main.c: the arguments, the snapshot, and the way into the interactive
-- program.
use rookietop.Common.{
  ℕ, Bool, true, false, ◌&&◌, ◌||◌, not, List, [], ◌∷◌, ◌++◌, Option, none, some, if◌then◌else◌,
}
use rookietop.Libc.Chars.{Bytes, codes, str_eq}
use rookietop.Libc.Float.{Float}
use rookietop.Libc.Format.{printed}
use rookietop.Sampling.{Sources, Sorts, collect_overview}
use rookietop.Render.Compact.{rookietop_version, newline, render_compact}
pub mod Snapshot

-- What the program finds when it starts: which of its streams are terminals, whether NO_COLOR is
-- set, and what a sample meets.
pub record Environment : Type 0 where
  pub stdout_tty : Bool
  pub stdin_tty : Bool
  pub no_color : Bool
  pub sources : Sources

-- What a run prints and returns, or `interactive` where run_interactive takes over.
pub data Run : Type 0 where
  ends : Bytes → Bytes → ℕ → Run
  interactive : Run

-- The lines of puts.
unfoldable pub put_lines : List Bytes → Bytes
put_lines [] = []
put_lines (line ∷ rest) = line ++ (newline ++ put_lines rest)

unfoldable pub print_help : Bytes
print_help = put_lines (
    codes "RookieTop - understand Linux by watching your own system"
    ∷ codes ""
    ∷ codes "Usage: rookietop [OPTION]"
    ∷ codes ""
    ∷ codes "Options:"
    ∷ codes "  --once           Print one snapshot and exit"
    ∷ codes "  -h, --help       Show this help"
    ∷ codes "  -V, --version    Show version"
    ∷ codes ""
    ∷ codes "Interactive keys:"
    ∷ codes "  ? or l           Explain what you are looking at"
    ∷ codes "  p                Open Process Explorer"
    ∷ codes "  Up/Down          Move through a list"
    ∷ codes "  /                Search processes by name or PID"
    ∷ codes "  c/m/p/n          Sort processes by CPU/memory/PID/name"
    ∷ codes "  Enter            Open the selected item"
    ∷ codes "  k                Ask a process to stop cleanly"
    ∷ codes "  K                Force-kill after a separate warning"
    ∷ codes "  Esc              Go back"
    ∷ codes "  q                Quit"
    ∷ codes ""
    ∷ codes "Set NO_COLOR to disable ANSI colors."
    ∷ [])

abbrev pub no_data_message : Bytes
no_data_message = codes "rookietop: could not read system data" ++ newline

module _ (f : Float) (sorts : Sorts f) where
  unfoldable pub run_monitor : Bool → Environment → Run
  run_monitor force_once env =
      let use_color = env.stdout_tty && not env.no_color in
      if not force_once && env.stdout_tty && env.stdin_tty
      then interactive
      else elim (collect_overview f sorts env.sources) [
        | none ↦ ends [] no_data_message 1
        | some view ↦ ends (render_compact f use_color view) [] 0
      ]

  -- The argument, where there is one.
  unfoldable pub main_option : Bytes → Environment → Run
  main_option option env =
      if str_eq option (codes "--once")
      then run_monitor true env
      else if str_eq option (codes "-h") || str_eq option (codes "--help")
      then ends print_help [] 0
      else if str_eq option (codes "-V") || str_eq option (codes "--version")
      then ends (rookietop_version ++ newline) [] 0
      else ends [] (codes "rookietop: unknown option" ++ newline) 2

  -- The arguments behind the name of the program.
  unfoldable pub main : List Bytes → Environment → Run
  main [] env = run_monitor false env
  main (option ∷ []) env = main_option option env
  main (option ∷ (other ∷ more)) env = ends [] (codes "rookietop: unknown option" ++ newline) 2
