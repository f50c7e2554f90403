-- ===== src/Process/Memory.antt =====
-- The processes that process_top_memory reports.
use rookietop.Common.{ℕ, suc, ◌+◌, ◌<◌, ◌≡◌, refl, false, List, [], ◌∷◌, none, some, arith, length}
use rookietop.Libc.Chars.{Bytes}
use rookietop.ProcFs.{Directory, ProcFs}
use rookietop.Top
use rookietop.Top.{Top}
use rookietop.Top.Sorted.{all_comparable}
use rookietop.Top.Insert.{Best, insert_all-Best}
use rookietop.Process.{
  ProcessInfo, rss_ge, insert_top, read_entry, Found, scan_entries, process_top_memory,
}

-- The processes that the entries of /proc give, in that order.
pub readable : ProcFs → List Bytes → List ProcessInfo
readable fs [] = []
readable fs (entry ∷ rest) = elim (read_entry fs entry) [
  | none ↦ readable fs rest
  | some process ↦ process ∷ readable fs rest
]

scan_entries-readable :
    (fs : ProcFs) (cap : ℕ) (entries : List Bytes) (acc : Found)
    → ((scan_entries fs cap entries acc).top
        ≡ Top.insert_all rss_ge cap acc.top (readable fs entries))
      × ((scan_entries fs cap entries acc).total ≡ acc.total + length (readable fs entries))
unfolding scan_entries readable Top.insert_all insert_top
scan_entries-readable fs cap [] acc = (refl, omega arith)
scan_entries-readable fs cap (entry ∷ rest) acc = ground (
  arith,
  scan_entries-readable fs cap rest (elim (read_entry fs entry) [
    | none ↦ acc
    | some process ↦ record { top = insert_top cap acc.top process; total = suc acc.total }
  ]),
)

-- When /proc can be listed and closed without an error, process_top_memory succeeds with an array
-- of at least one cell: it holds the first cells of all readable processes in descending order of
-- memory, counts those it holds, and its total is the number of readable processes.
pub process_top_memory-Best :
    (fs : ProcFs) (dir : Directory) (out : List ProcessInfo) (cap : ℕ)
    → fs.proc_dir ≡ some dir
    → dir.read_error ≡ false
    → dir.close_error ≡ false
    → 0 < cap
    → length out ≡ cap
    → (r : Found) × (process_top_memory fs out cap ≡ some r)
      × Best rss_ge cap (readable fs dir.entries) r.top
      × (r.total ≡ length (readable fs dir.entries))
unfolding process_top_memory
process_top_memory-Best fs dir out cap opened listed closed some_cell size =
    let empty : Top ProcessInfo = record { out = out; count = 0 } in
    let start : Found = record { top = empty; total = 0 } in
    let (tops, totals) = scan_entries-readable fs cap dir.entries start in
    (
      scan_entries fs cap dir.entries start,
      ground arith,
      rw tops (
          insert_all-Best rss_ge (λ a b _ _. ground arith) (λ a b c h k. ground arith) cap out
            (readable fs dir.entries) size
            (all_comparable rss_ge (λ a. ground arith) (readable fs dir.entries))),
      omega arith,
    )
