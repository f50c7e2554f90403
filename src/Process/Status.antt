-- ===== src/Process/Status.antt =====
-- What process_parse_status accepts.
use rookietop.Common.{
  ℕ, ◌<◌, ◌≡◌, refl, true, false, ◌||◌, not, List, [], ◌∷◌, some, ◌>>=◌, arith, length, >>=-eq-some,
  reject_if, ◌==◌,
}
use rookietop.Libc.Chars.{Bytes}
use rookietop.Libc.Files.{File, lines}
use rookietop.Reading.{Reading, found}
use rookietop.Process.{
  ProcessInfo, parse_name, Partial, status_line, status_lines, unnamed, process_parse_status,
}

abbrev IsName : ℕ → Reading Bytes → Type 0
IsName cap (found name) = (0 < length name) × (length name < cap)
IsName cap _ = Unit

parse_name-IsName : (line : Bytes) (cap : ℕ) → IsName cap (parse_name line cap)
unfolding parse_name
parse_name-IsName line cap = ground arith

-- The pid stays, and a name that was found has a length in range.
record IsSound (pid : ℕ) (p : Partial) : Type 0 where
  same_pid : p.process.pid ≡ pid
  named : p.found_name ≡ true → (0 < length p.process.name) × (length p.process.name < 64)

status_line-IsSound :
    (pid : ℕ) (p q : Partial) (line : Bytes)
    → IsSound pid p
    → status_line p line ≡ some q
    → IsSound pid q
unfolding status_line
status_line-IsSound pid p q line s h = ground (arith, parse_name-IsName line 64)

status_lines-IsSound :
    (pid : ℕ) (ls : List Bytes) (p : Partial) {q : Partial}
    → IsSound pid p
    → status_lines ls p ≡ some q
    → IsSound pid q
unfolding status_lines
status_lines-IsSound pid [] p s h = ground arith
status_lines-IsSound pid (line ∷ rest) p s h =
    let (p', first, later) = >>=-eq-some (status_line p line) (status_lines rest) h in
    status_lines-IsSound pid rest p' (status_line-IsSound pid p p' line s first) later

-- A process that process_parse_status returns has the positive pid that was asked for and a name
-- of 1 to 63 bytes, and the file was read without an error.
pub process_parse_status-eq-some :
    (file : File) (pid : ℕ) {process : ProcessInfo}
    → process_parse_status file pid ≡ some process
    → (0 < pid)
      × (process.pid ≡ pid)
      × (0 < length process.name)
      × (length process.name < 64)
      × (file.read_error ≡ false)
unfolding process_parse_status
process_parse_status-eq-some file pid h =
    let (started, positive, rest) =
      >>=-eq-some (reject_if (pid == 0) (some (tt {0})))
        (λ _. status_lines (lines 256 file) (unnamed pid) >>= λ p.
          reject_if (file.read_error || not p.found_name) (some p.process))
        h in
    let (p, parsed, accepted) = >>=-eq-some (status_lines (lines 256 file) (unnamed pid)) _ rest in
    let sound =
      status_lines-IsSound pid (lines 256 file) (unnamed pid)
        (record { same_pid = refl; named = λ e. cc }) parsed in
    (ground arith, ground arith, ground arith, ground arith, ground arith)
