-- ===== src/App/History.antt =====
-- The history behind the overview's graphs: `struct metric_history` and history_push of src/main.c.
use rookietop.Common.{ℕ, suc, ◌+◌, ◌-◌, List, ltb, if◌then◌else◌, set}
use rookietop.Top.{memmove}
pub mod Recent

abbrev pub history_max : ℕ
history_max = 90

-- The arrays have `history_max` cells, of which those from `count` on are unused.
pub record MetricHistory (A : Type 0) : Type 0 where
  pub cpu : List A
  pub memory : List A
  pub count : ℕ

module _ {A : Type 0} where
  -- One array of a full history: the memmove, and the store into the last cell.
  unfoldable pub shift : List A → A → List A
  shift cells value = set (memmove 0 1 (history_max - 1) cells) (history_max - 1) value

  -- The sample is given by its two numbers.
  unfoldable pub history_push : MetricHistory A → A → A → MetricHistory A
  history_push history cpu_percent memory_percent =
      if ltb history.count history_max
      then record {
        cpu = set history.cpu history.count cpu_percent;
        memory = set history.memory history.count memory_percent;
        count = history.count + 1;
      }
      else record history {
        cpu = shift history.cpu cpu_percent;
        memory = shift history.memory memory_percent;
      }
