-- ===== src/ProcessList/Details.antt =====
-- What process_detail_read and the rows of process_list_read hold.
use rookietop.Common.{
  ℕ, ◌-◌, ◌≤◌, ◌<◌, ◌≡◌, refl, Bool, true, false, ◌||◌, not, List, [], ◌∷◌, ◌++◌, Option, none,
  some, ◌==◌, reject_if, length, take, map, arith, >>=-eq-some, length-take, length-map,
}
use rookietop.Libc.Chars.{Bytes, codes, take_until, trim_end, is_space, is_line_end}
use rookietop.Libc.Files.{lines}
use rookietop.Libc.Float.{Float}
use rookietop.Reading.{Reading, other, bad, found}
use rookietop.ProcFs.{ProcFs, open_proc}
use rookietop.ProcessList.{
  ProcessRow, parse_status_line, is_name_line, scan_name, RowSoFar, row_lines, blank_row,
  read_starttime, read_row, nul_to_space, trim_newline, read_cmdline, ProcessDetail, bracketed,
  command_of, process_detail_read,
}

length-take_until : (p : ℕ → Bool) (s : Bytes) → length (take_until p s) ≤ length s
unfolding take_until
length-take_until p [] = omega arith
length-take_until p (c ∷ cs) = ground (arith, length-take_until p cs)

length-trim_end : (p : ℕ → Bool) (s : Bytes) → length (trim_end p s) ≤ length s
unfolding trim_end
length-trim_end p [] = omega arith
length-trim_end p (c ∷ cs) = ground (arith, length-trim_end p cs)

length-read_cmdline :
    (fs : ProcFs) (pid size : ℕ) {command : Bytes}
    → read_cmdline fs pid size ≡ some command
    → length command ≤ size - 1
unfolding read_cmdline trim_newline
length-read_cmdline fs pid size h =
    let (_, positive, h1) = >>=-eq-some (reject_if (size == 0) (some (tt {0}))) _ h in
    let (file, opened, h2) = >>=-eq-some (open_proc fs pid (codes "cmdline")) _ h1 in
    let bytes = take (size - 1) file.content in
    let read = trim_end is_space (map nul_to_space bytes) in
    ground (
      arith,
      length-take_until is_line_end read,
      length-trim_end is_space (map nul_to_space bytes),
      length-map bytes nul_to_space,
      length-take (size - 1) file.content,
    )

module _ (f : Float) where
  abbrev IsName : Bytes → Type 0
  IsName name = (0 < length name) × (length name < 64)

  abbrev Keeps : Bytes → ProcessRow f → Reading (ProcessRow f) → Type 0
  Keeps line row (found row') =
      (row'.pid ≡ row.pid)
      × (is_name_line f line ≡ true → IsName row'.name)
      × (is_name_line f line ≡ false → row'.name ≡ row.name)
  Keeps line row _ = Unit

  parse_status_line-Keeps :
      (row : ProcessRow f) (line : Bytes) → Keeps line row (parse_status_line f row line)
  unfolding parse_status_line scan_name
  parse_status_line-Keeps row line = ground arith

  -- The pid stays, and a name that was found has a length in range.
  record IsSound (pid : ℕ) (r : RowSoFar f) : Type 0 where
    same_pid : r.row.pid ≡ pid
    named : r.found_name ≡ true → IsName r.row.name

  row_lines-IsSound :
      (pid : ℕ) (ls : List Bytes) (r : RowSoFar f) {r' : RowSoFar f}
      → IsSound pid r
      → row_lines f ls r ≡ some r'
      → IsSound pid r'
  unfolding row_lines
  row_lines-IsSound pid [] r s h = ground arith
  row_lines-IsSound pid (line ∷ rest) r {r'} s h =
      go (parse_status_line f r.row line) (parse_status_line-Keeps r.row line) h
        (row_lines-IsSound pid rest r s) (λ next sound. row_lines-IsSound pid rest next sound)
    where
      go :
          (o : Reading (ProcessRow f))
          → Keeps line r.row o
          → (elim o [
            | bad ↦ none
            | other ↦ row_lines f rest r
            | found row ↦
                row_lines f rest
                  (record { row = row; found_name = r.found_name || is_name_line f line })
          ])
            ≡ some r'
          → (row_lines f rest r ≡ some r' → IsSound pid r')
          → ((next : RowSoFar f)
              → IsSound pid next
              → row_lines f rest next ≡ some r'
              → IsSound pid r')
          → IsSound pid r'
      go bad k e same next = cc
      go other k e same next = same e
      go (found row) k e same next =
          next (record { row = row; found_name = r.found_name || is_name_line f line })
            (record { same_pid = ground arith; named = ground arith }) e

  read_row-eq-some :
      (fs : ProcFs) (pid : ℕ) {row : ProcessRow f}
      → read_row f fs pid ≡ some row
      → (row.pid ≡ pid) × IsName row.name × (read_starttime fs pid ≡ some row.starttime)
  unfolding read_row
  read_row-eq-some fs pid h =
      let (file, opened, h1) = >>=-eq-some (open_proc fs pid (codes "status")) _ h in
      let start : RowSoFar f = record { row = blank_row f pid; found_name = false } in
      let (r, parsed, h2) = >>=-eq-some (row_lines f (lines 1024 file) start) _ h1 in
      let (_, accepted, h3) =
        >>=-eq-some
          (reject_if (file.read_error || file.close_error || not r.found_name) (some (tt {0}))) _
          h2 in
      let (starttime, read, h4) = >>=-eq-some (read_starttime fs pid) _ h3 in
      let sound =
        row_lines-IsSound pid (lines 1024 file) start (record { same_pid = refl; named = λ e. cc })
          parsed in
      (ground arith, ground arith, ground arith)

  command_of_bounds :
      (command : Option Bytes) (name : Bytes)
      → ((c : Bytes) → command ≡ some c → length c ≤ 255)
      → (0 < length (command_of f command name)) × (length (command_of f command name) ≤ 255)
  unfolding command_of bracketed
  command_of_bounds none name h =
      (omega arith, omega (arith, length-take 255 (b'[' ∷ (name ++ b']' ∷ []))))
  command_of_bounds (some []) name h =
      (omega arith, omega (arith, length-take 255 (b'[' ∷ (name ++ b']' ∷ []))))
  command_of_bounds (some (c ∷ cs)) name h = (omega arith, h (c ∷ cs) refl)

  -- The details that process_detail_read returns are those of the positive pid that was asked for,
  -- with a name of 1 to 63 bytes, the start time that process_send_signal will compare, and a
  -- command line of 1 to 255 bytes, which fits its buffer.
  pub process_detail_read-eq-some :
      (fs : ProcFs) (pid : ℕ) {detail : ProcessDetail f}
      → process_detail_read f fs pid ≡ some detail
      → (0 < pid)
        × (detail.row.pid ≡ pid)
        × (0 < length detail.row.name)
        × (length detail.row.name < 64)
        × (read_starttime fs pid ≡ some detail.row.starttime)
        × (0 < length detail.command)
        × (length detail.command ≤ 255)
  unfolding process_detail_read
  process_detail_read-eq-some fs pid h =
      let (_, positive, h1) = >>=-eq-some (reject_if (pid == 0) (some (tt {0}))) _ h in
      let (row, read, h2) = >>=-eq-some (read_row f fs pid) _ h1 in
      let known = read_row-eq-some fs pid read in
      let bounds =
        command_of_bounds (read_cmdline fs pid 256) row.name
          (λ c e. length-read_cmdline fs pid 256 e) in
      (
        ground arith,
        ground arith,
        ground arith,
        ground arith,
        ground arith,
        ground arith,
        ground arith,
      )
