-- ===== src/Process.antt =====
-- src/process.c: /proc/<pid>/status, and the processes that hold the most memory.
use rookietop.Common.{
  ℕ, suc, Bool, true, false, ◌||◌, not, List, [], ◌∷◌, Option, none, some, ltb, leb, ◌==◌,
  if◌then◌else◌, ◌>>=◌, reject_if, length,
}
use rookietop.Libc.Chars.{
  Bytes, codes, strip_prefix, skip_while, take_until, trim_end, is_blank, is_space, is_line_end,
}
use rookietop.Libc.Numbers.{scan_amount}
use rookietop.Libc.Files.{File, lines}
use rookietop.Reading.{Reading, other, bad, found, amount}
use rookietop.ProcFs.{Directory, ProcFs, open_proc, parse_pid}
use rookietop.Top
use rookietop.Top.{Top}
pub mod Status
pub mod Memory

pub record ProcessInfo : Type 0 where
  pub pid : ℕ
  pub name : Bytes
  pub rss_kib : ℕ

unfoldable pub parse_name : Bytes → ℕ → Reading Bytes
parse_name line cap = elim (strip_prefix (codes "Name:") line) [
  | none ↦ other
  | some rest ↦
      let name = trim_end is_space (take_until is_line_end (skip_while is_blank rest)) in
      if length name == 0 || leb cap (length name) then bad else found name
]

unfoldable pub parse_rss : Bytes → Reading ℕ
parse_rss line = elim (strip_prefix (codes "VmRSS:") line) [
  | none ↦ other
  | some rest ↦ amount (scan_amount rest)
]

-- `process` and `found_name` behind the lines read so far.
pub record Partial : Type 0 where
  pub process : ProcessInfo
  pub found_name : Bool

abbrev with_name : Partial → Bytes → Partial
with_name p name = record { process = record (p.process) { name = name }; found_name = true }

abbrev with_rss : Partial → ℕ → Partial
with_rss p v = record p { process = record (p.process) { rss_kib = v } }

-- One round of the loop: `none` is `return -1`.
unfoldable pub status_line : Partial → Bytes → Option Partial
status_line p line = elim (parse_name line 64) [
  | bad ↦ none
  | found name ↦ some (with_name p name)
  | other ↦ elim (parse_rss line) [ bad ↦ none | found v ↦ some (with_rss p v) | other ↦ some p ]
]

unfoldable pub status_lines : List Bytes → Partial → Option Partial
status_lines [] p = some p
status_lines (line ∷ rest) p = status_line p line >>= status_lines rest

abbrev pub unnamed : ℕ → Partial
unnamed pid = record { process = record { pid = pid; name = []; rss_kib = 0 }; found_name = false }

unfoldable pub process_parse_status : File → ℕ → Option ProcessInfo
process_parse_status file pid = do
  _ ← reject_if (pid == 0) (some (tt {0}))
  p ← status_lines (lines 256 file) (unnamed pid)
  reject_if (file.read_error || not p.found_name) (some p.process)

-- `out[pos].rss_kib >= candidate->rss_kib`
abbrev pub rss_ge : ProcessInfo → ProcessInfo → Bool
rss_ge a b = leb b.rss_kib a.rss_kib

unfoldable pub insert_top : ℕ → Top ProcessInfo → ProcessInfo → Top ProcessInfo
insert_top = Top.insert_top rss_ge

-- What an entry of /proc gives, if it does not `continue`.
unfoldable pub read_entry : ProcFs → Bytes → Option ProcessInfo
read_entry fs entry = do
  pid ← parse_pid entry
  file ← open_proc fs pid (codes "status")
  process ← process_parse_status file pid
  reject_if file.close_error (some process)

-- `out` with `count`, and `total`.
pub record Found : Type 0 where
  pub top : Top ProcessInfo
  pub total : ℕ

unfoldable pub scan_entries : ProcFs → ℕ → List Bytes → Found → Found
scan_entries fs cap [] acc = acc
scan_entries fs cap (entry ∷ rest) acc = scan_entries fs cap rest (elim (read_entry fs entry) [
  | none ↦ acc
  | some process ↦ record { top = insert_top cap acc.top process; total = suc acc.total }
])

-- The array `out` has `cap` cells, whatever they hold before.
unfoldable pub process_top_memory : ProcFs → List ProcessInfo → ℕ → Option Found
process_top_memory fs out cap = do
  _ ← reject_if (cap == 0) (some (tt {0}))
  dir ← fs.proc_dir
  let acc =
      scan_entries fs cap dir.entries (record { top = record { out = out; count = 0 }; total = 0 })
  reject_if (dir.read_error || dir.close_error) (some acc)
