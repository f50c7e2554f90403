-- ===== src/ProcessCpu/Since/Shares.antt =====
-- The CPU share of a process, by what the snapshot holds for its pid.
use rookietop.Common.{ℕ, ◌-◌, ◌≡◌, refl, ◌&&◌, List, some, leb, ◌==◌, if◌then◌else◌, get_elem?, ap}
use rookietop.Libc.Float.{Float}
use rookietop.Libc.Sort.{IsAscending}
use rookietop.Search.{Outcome, hit, miss, fault, search}
use rookietop.Search.Correct.{Absent, Absent-get_elem?, Decides, search-Decides}
use rookietop.ProcessCpu.Parse.{ProcessCpuStat}
use rookietop.ProcessCpu.Snapshot.{ProcessCpuCounter, counter_pid}
use rookietop.ProcessCpu.Since.{find_previous, share}

-- No other counter of the snapshot has the pid of this one.
abbrev pub IsOnly : List ProcessCpuCounter → ProcessCpuCounter → Type 0
IsOnly snapshot old =
    (i : ℕ) (x : ProcessCpuCounter) → get_elem? snapshot i ≡ some x → x.pid ≡ old.pid → x ≡ old

module _ (f : Float) (previous : List ProcessCpuCounter)
    (sorted : IsAscending counter_pid previous) where
  open f use {of_u64, literal, mul, div}

  find_previous-Absent :
      (pid : ℕ) → Absent counter_pid pid previous → find_previous previous pid ≡ miss
  unfolding find_previous
  find_previous-Absent pid gone =
      go (search counter_pid previous pid) (search-Decides counter_pid previous pid sorted)
    where
      go : (o : Outcome ProcessCpuCounter) → Decides counter_pid previous pid o → o ≡ miss
      go (hit x) (same, i, cell) =
          absurd (Absent-get_elem? counter_pid pid previous i gone cell same)
      go miss d = refl
      go fault d = absurd d

  -- A process whose pid the snapshot does not hold gets the share 0.0.
  pub share-Absent :
      (pid : ℕ) (current : ProcessCpuStat) (system_delta_ticks : ℕ)
      → Absent counter_pid pid previous
      → share f (find_previous previous pid) current system_delta_ticks ≡ literal 0 1
  unfolding share
  share-Absent pid current system_delta_ticks gone = rw (find_previous-Absent pid gone)

  find_previous-IsOnly :
      (i : ℕ) (old : ProcessCpuCounter)
      → get_elem? previous i ≡ some old
      → IsOnly previous old
      → find_previous previous old.pid ≡ hit old
  unfolding find_previous
  find_previous-IsOnly i old cell only =
      go (search counter_pid previous old.pid) (search-Decides counter_pid previous old.pid sorted)
    where
      go : (o : Outcome ProcessCpuCounter) → Decides counter_pid previous old.pid o → o ≡ hit old
      go (hit x) (same, j, there) = ap hit (only j x there same)
      go miss d = absurd (Absent-get_elem? counter_pid old.pid previous i d cell refl)
      go fault d = absurd d

  -- A process whose pid one counter of the snapshot holds gets the share of the ticks that it used
  -- since then if it has the start time of that counter and no fewer ticks, and otherwise 0.0: a
  -- reused pid is never charged with the ticks of another process.
  pub share-IsOnly :
      (i : ℕ) (old : ProcessCpuCounter) (current : ProcessCpuStat) (system_delta_ticks : ℕ)
      → get_elem? previous i ≡ some old
      → IsOnly previous old
      → share f (find_previous previous old.pid) current system_delta_ticks ≡ (
          if old.starttime == current.starttime && leb old.ticks current.ticks
          then div
              (mul (of_u64 (current.ticks - old.ticks)) (literal 100 1))
              (of_u64 system_delta_ticks)
          else literal 0 1)
  unfolding share
  share-IsOnly i old current system_delta_ticks cell only =
      rw (find_previous-IsOnly i old cell only)
