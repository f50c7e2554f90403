-- ===== src/Examples/Data.antt =====
-- The inputs: whole numbers for the doubles, a small /proc, and a sort by insertion.
use Prim.Native.String.{String}
use rookietop.Common.{
  ◌≢◌, ◌⊎◌, inl, inr, ℕ, Bool, true, false, List, [], ◌∷◌, Option, none, some, ltb, leb,
  if◌then◌else◌, ◌/◌, ◌+◌, ◌*◌, ◌≡◌, refl, arith,
}
use rookietop.Libc.Chars.{Bytes, codes, str_eq}
use rookietop.Libc.Files.{File}
use rookietop.Libc.Float.{Float, IsOrdered}
use mathlib.Core.List.{Perm, append-nil}
use mathlib.Core.Path.{subst}
use rookietop.Libc.Chars.{strchr, strrchr, skip_while, take_until, is_space, is_digit, c_string}
use rookietop.Libc.Decimal.{decimal, digits_below}
use rookietop.Libc.Int.{pos, pos_part}
use rookietop.Libc.Numbers.{conversions, number}
use rookietop.Libc.Files.{first_line, lines, fgets_loop}
use rookietop.Libc.Sort.{
  Sign, negative, equal, positive, opposite, Qsort, IsConsistent, NoneAbove, IsSortedBy, IsQsort,
}
use rookietop.Top.Sorted.{
  insert_each, AllBelow, IsDescending, insert_each-Perm, insert_each-IsDescending, all_comparable,
}
use rookietop.ProcFs.{Directory, ProcFs, open_proc, parse_pid}
use rookietop.ProcessCpu.Parse.{
  ProcessCpuStat, process_cpu_parse_stat, parse_stat_pid, parse_stat_name, read_fields, read_field,
  store_field, is_not_space, parse_uint_token,
}
use rookietop.ProcessCpu.Snapshot.{read_process_stat}
use rookietop.Overview.{Overview, no_overview, no_host}
use rookietop.ProcessList.{KillCall, KillAnswer}
use rookietop.ProcessCpu.Snapshot.{ProcessCpuCounter}

-- Whole numbers in place of doubles, of which none is negative here.
abbrev pub naturals : Float
naturals = record {
  Double = ℕ;
  of_u64 = λ n. n;
  literal = λ n d. n / d;
  negate = λ n. 0;
  add = λ a b. a + b;
  mul = λ a b. a * b;
  div = λ a b. a / b;
  of_int = pos_part;
  truncate = pos;
  scan = λ s. number (skip_while is_space s);
  fixed = λ n a. decimal a;
  lt = ltb;
  le = leb;
}

pub naturals-IsOrdered : IsOrdered naturals
naturals-IsOrdered = record {
  total = λ a b h k. ground arith;
  trans = λ a b c h k. ground arith;
  le_numbers = λ a b h. ground arith;
  lt_numbers = λ a b h. ground arith;
}

abbrev pub good_file : String → File
good_file text = record { content = codes text; read_error = false; close_error = false }

-- The process 7 has started at 900, and nothing else can be read.
abbrev pub open_seven : Bytes → Option File
open_seven path =
    if str_eq path (codes "/proc/7/stat")
    then some (good_file "7 (sh) S 1 1 1 0 -1 4 1 0 0 0 30 12 0 0 20 0 1 0 900 0")
    else if str_eq path (codes "/proc/7/status")
    then some (good_file "Name:\tsh\nState:\tS\nThreads:\t1\nVmRSS:\t512 kB\n")
    else none

abbrev pub listing : Directory
listing = record {
  entries = codes "self" ∷ codes "7" ∷ codes "9" ∷ [];
  read_error = false;
  close_error = false;
}

abbrev pub small_proc : ProcFs
small_proc = record { proc_dir = some listing; open_file = open_seven }

abbrev pub kill_sends : KillCall → KillAnswer
kill_sends call = KillAnswer.sent

abbrev pub counter_7 : ProcessCpuCounter
counter_7 = record { pid = 7; ticks = 40; starttime = 900 }

abbrev pub counter_9 : ProcessCpuCounter
counter_9 = record { pid = 9; ticks = 5; starttime = 70 }

-- A sort, which fills in for qsort(3).
abbrev is_not_positive : Sign → Bool
is_not_positive positive = false
is_not_positive _ = true

is_not_positive_lem :
    (s : Sign)
    → (s ≢ positive → is_not_positive s ≡ true) × (is_not_positive s ≡ true → s ≢ positive)
is_not_positive_lem negative = ((λ h. refl), (λ h. cc))
is_not_positive_lem equal = ((λ h. refl), (λ h. cc))
is_not_positive_lem positive = ((λ h. absurd (h refl)), (λ h. cc))

module _ {A : Type 0} where
  module _ (compare : A → A → Sign) where
    abbrev pub at_most : A → A → Bool
    at_most a b = is_not_positive (compare a b)

  abbrev pub sort : Qsort A
  sort compare items = insert_each (at_most compare) [] items

  module _ (compare : A → A → Sign) (c : IsConsistent compare) where
    at_most-total : (a b : A) → (at_most compare a b ≡ true) ⊎ (at_most compare b a ≡ true)
    at_most-total a b = total_sign (compare a b) (compare b a) (c.flips a b)
      where
        total_sign :
            (s t : Sign) → t ≡ opposite s → (is_not_positive s ≡ true) ⊎ (is_not_positive t ≡ true)
        total_sign negative t h = inl refl
        total_sign equal t h = inl refl
        total_sign positive t h = inr (rw h refl)

    at_most_refl : (a : A) → at_most compare a a ≡ true
    at_most_refl a = elim (at_most-total a a) [ inl h ↦ h | inr h ↦ h ]

    at_most_trans :
        (x y z : A)
        → at_most compare x y ≡ true
        → at_most compare y z ≡ true
        → at_most compare x z ≡ true
    at_most_trans x y z h k = (is_not_positive_lem (compare x z)).0 (
        c.trans x y z ((is_not_positive_lem (compare x y)).1 h)
          ((is_not_positive_lem (compare y z)).1 k))

    AllBelow-NoneAbove :
        (x : A) (items : List A) → AllBelow (at_most compare) x items → NoneAbove compare x items
    AllBelow-NoneAbove x [] h = tt
    AllBelow-NoneAbove x (y ∷ ys) h =
        ((is_not_positive_lem (compare x y)).1 h.0, AllBelow-NoneAbove x ys h.1)

    IsDescending-IsSortedBy :
        (items : List A) → IsDescending (at_most compare) items → IsSortedBy compare items
    IsDescending-IsSortedBy [] h = tt
    IsDescending-IsSortedBy (x ∷ xs) h =
        (AllBelow-NoneAbove x xs h.0, IsDescending-IsSortedBy xs h.1)

  pub sort-IsQsort : IsQsort sort
  sort-IsQsort = record {
    perm = λ compare xs c.
        subst (Perm (sort compare xs)) (append-nil xs) (insert_each-Perm (at_most compare) [] xs);
    sorted = λ compare xs c. IsDescending-IsSortedBy compare c (sort compare xs) (
        insert_each-IsDescending (at_most compare) (λ a b _ _. at_most-total compare c a b)
          (at_most_trans compare c) [] xs tt
          (all_comparable (at_most compare) (at_most_refl compare c) xs) tt);
  }

abbrev pub quiet_view : Overview naturals
quiet_view = record (no_overview naturals) {
  host = record (no_host naturals) { cores = 4 };
  cpu_percent = 4;
  memory_percent = 40;
  disk_percent = 88;
  host_ok = true;
}

-- What /proc says of its entries.
abbrev pub stat_7 : ProcessCpuStat
stat_7 = record { pid = 7; name = codes "sh"; ticks = 42; starttime = 900 }

pub parse_pid_self : parse_pid (codes "self") ≡ none
unfolding parse_pid conversions
parse_pid_self = refl

pub parse_pid-7 : parse_pid (codes "7") ≡ some 7
unfolding parse_pid conversions
parse_pid-7 = refl

pub parse_pid-9 : parse_pid (codes "9") ≡ some 9
unfolding parse_pid conversions
parse_pid-9 = refl

pub read_process_stat-7 : read_process_stat small_proc 7 ≡ some stat_7
unfolding read_process_stat open_proc first_line lines fgets_loop c_string process_cpu_parse_stat
    parse_stat_pid parse_stat_name read_fields read_field store_field is_not_space parse_uint_token
    conversions decimal digits_below str_eq strchr strrchr skip_while take_until is_space is_digit
read_process_stat-7 = refl

pub read_process_stat-9 : read_process_stat small_proc 9 ≡ none
unfolding read_process_stat open_proc decimal digits_below str_eq
read_process_stat-9 = refl
