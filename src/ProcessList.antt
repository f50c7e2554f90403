-- ===== src/ProcessList.antt =====
-- src/process_list.c: the rows of all processes, the details of one, and the signal to one.
use rookietop.Common.{
  ℕ, suc, ◌-◌, Bool, true, false, ◌&&◌, ◌||◌, not, List, [], ◌∷◌, ◌++◌, Option, none, some, ltb,
  leb, ◌==◌, if◌then◌else◌, ◌>>=◌, reject_if, length, take, map,
}
use rookietop.Libc.Chars.{
  Bytes, codes, strip_prefix, skip_while, take_until, trim_end, is_blank, is_space, is_line_end,
}
use rookietop.Libc.Numbers.{scan_u64, scan_amount}
use rookietop.Libc.Files.{File, lines}
use rookietop.Libc.Float.{Float}
use rookietop.Reading.{Reading, other, bad, found, amount}
use rookietop.ProcFs.{Directory, ProcFs, open_proc, parse_pid}
use rookietop.Growing.{Allocator, Growing, allocate, collect}
use rookietop.ProcessCpu.Snapshot.{read_process_stat}
pub mod Signal
pub mod Details

pub record ProcessRow (f : Float) : Type 0 where
  pub pid : ℕ
  pub name : Bytes
  pub state : ℕ
  pub threads : ℕ
  pub rss_kib : ℕ
  pub starttime : ℕ
  pub cpu_percent : f.Double

-- A pid that is not positive is 0 here.
unfoldable pub read_starttime : ProcFs → ℕ → Option ℕ
read_starttime fs pid = do stat ← read_process_stat fs pid; some stat.starttime

-- sscanf(s, " %lu %c", &threads, &extra) == 1
unfoldable pub scan_threads : Bytes → Reading ℕ
scan_threads s = elim (scan_u64 s) [
  | none ↦ bad
  | some (v, rest) ↦ if length (skip_while is_space rest) == 0 then found v else bad
]

-- The text behind the blanks is the state, unless the line ends there.
unfoldable pub scan_state : Bytes → Reading ℕ
scan_state [] = bad
scan_state (c ∷ cs) = if c == 10 then bad else found c

unfoldable pub scan_name : Bytes → Reading Bytes
scan_name rest =
    let name = take_until is_line_end (skip_while is_blank rest) in
    if length name == 0 || leb 64 (length name) then bad else found name

abbrev reading_map {ℓ κ} : {A : Type ℓ} {B : Type κ} → (A → B) → Reading A → Reading B
reading_map g other = other
reading_map g bad = bad
reading_map g (found a) = found (g a)

-- `if (strncmp(line, prefix, …) == 0) …`, else the next test
abbrev if_prefix {ℓ} : {A : Type ℓ} → Bytes → Bytes → (Bytes → Reading A) → Reading A → Reading A
if_prefix prefix line parse rest = elim (strip_prefix prefix line) [
  | none ↦ rest
  | some s ↦ parse s
]

module _ (f : Float) where
  open f use {literal, negate}

  unfoldable pub parse_status_line : ProcessRow f → Bytes → Reading (ProcessRow f)
  parse_status_line row line =
      if_prefix (codes "Name:") line (λ s. reading_map (λ v. record row { name = v }) (scan_name s))
        (if_prefix (codes "State:") line
          (λ s. reading_map (λ v. record row { state = v }) (scan_state (skip_while is_blank s)))
          (if_prefix (codes "Threads:") line
            (λ s. reading_map (λ v. record row { threads = v }) (scan_threads s))
            (if_prefix (codes "VmRSS:") line
              (λ s. reading_map (λ v. record row { rss_kib = v }) (amount (scan_amount s))) other)))

  -- The row so far, and `found_name`.
  pub record RowSoFar : Type 0 where
    pub row : ProcessRow f
    pub found_name : Bool

  abbrev pub is_name_line : Bytes → Bool
  is_name_line line = elim (strip_prefix (codes "Name:") line) [ none ↦ false | some s ↦ true ]

  unfoldable pub row_lines : List Bytes → RowSoFar → Option RowSoFar
  row_lines [] r = some r
  row_lines (line ∷ rest) r = elim (parse_status_line r.row line) [
    | bad ↦ none
    | other ↦ row_lines rest r
    | found row ↦
        row_lines rest (record { row = row; found_name = r.found_name || is_name_line line })
  ]

  abbrev pub blank_row : ℕ → ProcessRow f
  blank_row pid = record {
    pid = pid;
    name = [];
    state = b'?';
    threads = 0;
    rss_kib = 0;
    starttime = 0;
    cpu_percent = negate (literal 1 1);
  }

  unfoldable pub read_row : ProcFs → ℕ → Option (ProcessRow f)
  read_row fs pid = do
    file ← open_proc fs pid (codes "status")
    r ← row_lines (lines 1024 file) (record { row = blank_row pid; found_name = false })
    _ ← reject_if (file.read_error || file.close_error || not r.found_name) (some (tt {0}))
    starttime ← read_starttime fs pid
    some (record (r.row) { starttime = starttime })

  -- sizeof(struct process_row)
  abbrev pub row_size : ℕ
  row_size = 104

  -- What an entry of /proc gives, if it does not `continue`.
  unfoldable pub read_row_entry : ProcFs → Bytes → Option (ProcessRow f)
  read_row_entry fs entry = do pid ← parse_pid entry; read_row fs pid

  unfoldable pub process_list_read : Allocator → ProcFs → Option (List (ProcessRow f))
  process_list_read alloc fs = do
    dir ← fs.proc_dir
    empty ← allocate row_size alloc
    g ← collect row_size alloc (read_row_entry fs) dir.entries empty
    reject_if (dir.read_error || dir.close_error) (some g.items)

-- `if (out[i] == '\0') out[i] = ' ';`
unfoldable pub nul_to_space : ℕ → ℕ
nul_to_space c = if c == 0 then 32 else c

unfoldable pub trim_newline : Bytes → Bytes
trim_newline text = take_until is_line_end text

unfoldable pub read_cmdline : ProcFs → ℕ → ℕ → Option Bytes
read_cmdline fs pid cap = do
  _ ← reject_if (cap == 0) (some (tt {0}))
  file ← open_proc fs pid (codes "cmdline")
  let bytes = take (cap - 1) file.content
  reject_if (file.read_error || file.close_error)
      (some (trim_newline (trim_end is_space (map nul_to_space bytes))))

module _ (f : Float) where
  pub record ProcessDetail : Type 0 where
    pub row : ProcessRow f
    pub command : Bytes

  -- `snprintf(command, 256, "[%s]", name)`
  unfoldable pub bracketed : Bytes → Bytes
  bracketed name = take 255 (b'[' ∷ (name ++ b']' ∷ []))

  -- The command line, or the bracketed name if there is none.
  unfoldable pub command_of : Option Bytes → Bytes → Bytes
  command_of none name = bracketed name
  command_of (some []) name = bracketed name
  command_of (some (c ∷ cs)) name = c ∷ cs

  unfoldable pub process_detail_read : ProcFs → ℕ → Option ProcessDetail
  process_detail_read fs pid = do
    _ ← reject_if (pid == 0) (some (tt {0}))
    row ← read_row f fs pid
    some (record { row = row; command = command_of (read_cmdline fs pid 256) row.name })

-- The results 1, 0 and -1.
pub data Alive : Type 0 where
  alive gone invalid : Alive

unfoldable pub process_same_instance_alive : ProcFs → ℕ → ℕ → Alive
process_same_instance_alive fs pid starttime =
    if pid == 0 || starttime == 0 then invalid else elim (read_starttime fs pid) [
      | none ↦ gone
      | some current ↦ if current == starttime then alive else gone
    ]

pub data SignalResult : Type 0 where
  ok gone permission reused error : SignalResult

abbrev pub sigterm : ℕ
sigterm = 15

abbrev pub sigkill : ℕ
sigkill = 9

-- What kill(2) answers: success, ESRCH, EPERM or another errno.
pub data KillAnswer : Type 0 where
  sent esrch eperm other_errno : KillAnswer

abbrev pub answer_result : KillAnswer → SignalResult
answer_result sent = ok
answer_result esrch = gone
answer_result eperm = permission
answer_result other_errno = error

-- A call of kill(2).
pub record KillCall : Type 0 where
  pub pid : ℕ
  pub signal_number : ℕ

-- The result, and the calls of kill(2) that were made.
unfoldable pub process_send_signal :
    (KillCall → KillAnswer) → ProcFs → ℕ → ℕ → ℕ → SignalResult × List KillCall
process_send_signal kill fs pid starttime signal_number =
    if pid == 0
      || starttime == 0
      || (not (signal_number == sigterm) && not (signal_number == sigkill))
    then (error, [])
    else elim (read_starttime fs pid) [
      | none ↦ (gone, [])
      | some current ↦
          let call : KillCall = record { pid = pid; signal_number = signal_number } in
          if not (current == starttime)
          then (reused, [])
          else (answer_result (kill call), call ∷ [])
    ]
