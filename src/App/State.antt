-- ===== src/App/State.antt =====
-- The state of the interactive program: `struct app_state` of src/main.c and what it consists of.
use rookietop.Common.{ℕ, zero, suc, Bool, false, List, [], ◌∷◌, Option}
use rookietop.Libc.Chars.{Bytes}
use rookietop.Libc.Float.{Float}
use rookietop.ProcFs.{ProcFs}
use rookietop.ProcessList.{ProcessRow, ProcessDetail}
use rookietop.Overview.{Overview, no_overview}
use rookietop.Teaching.{teach_cpu}
use rookietop.App.History.{MetricHistory, history_max}

-- enum app_screen
pub data Screen : Type 0 where
  screen_overview screen_processes screen_process_search screen_detail screen_process_learn
        screen_learn_menu screen_learn_topic screen_confirm_term screen_confirm_kill :
      Screen

-- enum process_sort
pub data ProcessSort : Type 0 where
  sort_memory sort_cpu sort_pid sort_name : ProcessSort

-- The keys above a byte, of src/terminal_input.h.
abbrev pub input_up : ℕ
input_up = 1000

abbrev pub input_down : ℕ
input_down = 1001

abbrev pub input_enter : ℕ
input_enter = 1002

abbrev pub input_escape : ℕ
input_escape = 1003

abbrev pub process_search_max : ℕ
process_search_max = 64

-- `struct app_state`, and the global `history`.
pub record AppState (f : Float) : Type 0 where
  pub screen : Screen
  pub return_screen : Screen
  pub sort : ProcessSort
  pub lesson : ℕ
  pub learn_selected : ℕ
  pub selected : ℕ
  pub selected_pid : ℕ
  pub selected_starttime : ℕ
  pub selected_detail : ProcessDetail f
  pub view : Overview f
  pub view_ok : Bool
  pub search : Bytes
  pub search_draft : Bytes
  pub notice : Bytes
  pub history : MetricHistory f.Double

-- What one round of the loop meets: the sample of the overview, the rows of the process list, /proc
-- before and after the wait for the key, the key, where `none` stands for a negative one, and what it
-- draws for: the size of the terminal and whether it has colours.
pub record Frame (f : Float) : Type 0 where
  pub overview : Option (Overview f)
  pub rows : Option (List (ProcessRow f))
  pub fs_before : ProcFs
  pub fs_after : ProcFs
  pub key : Option ℕ
  pub term_rows : ℕ
  pub term_cols : ℕ
  pub use_color : Bool

module _ (f : Float) where
  open f use {Double, literal}

  abbrev pub zeros : ℕ → List Double
  zeros zero = []
  zeros (suc n) = literal 0 1 ∷ zeros n

  abbrev no_detail : ProcessDetail f
  no_detail = record {
    row = record {
      pid = 0;
      name = [];
      state = 0;
      threads = 0;
      rss_kib = 0;
      starttime = 0;
      cpu_percent = literal 0 1;
    };
    command = [];
  }

  -- The state that the loop starts with.
  abbrev pub initial : AppState f
  initial = record {
    screen = screen_overview;
    return_screen = screen_overview;
    sort = sort_memory;
    lesson = teach_cpu;
    learn_selected = 0;
    selected = 0;
    selected_pid = 0;
    selected_starttime = 0;
    selected_detail = no_detail;
    view = no_overview f;
    view_ok = false;
    search = [];
    search_draft = [];
    notice = [];
    history = record { cpu = zeros history_max; memory = zeros history_max; count = 0 };
  }
