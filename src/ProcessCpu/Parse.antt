-- ===== src/ProcessCpu/Parse.antt =====
-- src/process_cpu.c: the line of /proc/<pid>/stat. A pointer into the line is the rest of the line
-- from there on, so that of two pointers the one with the longer rest is the lower.
use rookietop.Common.{
  ℕ, zero, suc, ◌+◌, ◌-◌, ◌%◌, Bool, true, false, ◌&&◌, ◌||◌, not, List, [], ◌∷◌, Option, none,
  some, ltb, leb, ◌==◌, if◌then◌else◌, ◌>>=◌, reject_if, length, take,
}
use rookietop.Libc.Chars.{Bytes, is_space, skip_while, take_until, strchr, strrchr}
use rookietop.Libc.Numbers.{Converted, strtol, strtoull, u64_mod, u64_max, int_max}
pub mod Token
pub mod RoundTrip

pub record ProcessCpuStat : Type 0 where
  pub pid : ℕ
  pub name : Bytes
  pub ticks : ℕ
  pub starttime : ℕ

unfoldable pub parse_uint_token : Bytes → Option ℕ
parse_uint_token token =
    let r = strtoull token in
    reject_if (length token == 0 || leb 32 (length token))
      (reject_if (r.range_error || not (length r.rest == 0)) (some r.magnitude))

-- The variables that the loop over the fields sets.
pub record Times : Type 0 where
  pub utime : ℕ
  pub stime : ℕ
  pub starttime : ℕ
  pub found_utime : Bool
  pub found_stime : Bool
  pub found_starttime : Bool

abbrev pub no_times : Times
no_times = record {
  utime = 0;
  stime = 0;
  starttime = 0;
  found_utime = false;
  found_stime = false;
  found_starttime = false;
}

unfoldable pub store_field : ℕ → Bytes → Times → Option Times
store_field field token t =
    if field == 14
    then (do v ← parse_uint_token token; some (record t { utime = v; found_utime = true }))
    else if field == 15
    then (do v ← parse_uint_token token; some (record t { stime = v; found_stime = true }))
    else if field == 22
    then (do v ← parse_uint_token token; some (record t { starttime = v; found_starttime = true }))
    else some t

unfoldable pub is_not_space : ℕ → Bool
is_not_space b = not (is_space b)

-- One round: the cursor behind the field, and the variables.
unfoldable pub read_field : ℕ → Bytes → Times → Option (Bytes × Times)
read_field field cursor t = elim (skip_while is_space cursor) [
  | [] ↦ none
  | c ∷ cs ↦ do
    t' ← store_field field (take_until is_space (c ∷ cs)) t
    some (skip_while is_not_space (c ∷ cs), t')
]

-- `n` rounds from a field on
unfoldable pub read_fields : ℕ → ℕ → Bytes → Times → Option Times
read_fields zero field cursor t = some t
read_fields (suc n) field cursor t =
    read_field field cursor t >>= λ (cursor', t'). read_fields n (suc field) cursor' t'

abbrev pub behind : Bytes → Bytes
behind [] = []
behind (c ∷ cs) = cs

-- The pid, and the rest of the line behind it.
unfoldable pub parse_stat_pid : Bytes → Option (ℕ × Bytes)
parse_stat_pid line =
    let r = strtol line in
    reject_if
      (r.range_error
        || not r.converted
        || (r.negative || r.magnitude == 0)
        || ltb int_max r.magnitude)
      (some (r.magnitude, r.rest))

-- The name between the first `(` behind the pid and the last `)`, and the cursor behind that.
unfoldable pub parse_stat_name : Bytes → Bytes → Option (Bytes × Bytes)
parse_stat_name line pid_end = do
  first ← strchr pid_end b'('
  last ← strrchr line b')'
  _ ← reject_if (leb (length first) (length last + 1)) (some (tt {0}))
  let name_len = length first - length last - 1
  reject_if (leb 64 name_len) (some (take name_len (behind first), behind last))

unfoldable pub process_cpu_parse_stat : Bytes → Option ProcessCpuStat
process_cpu_parse_stat line = do
  (pid, pid_end) ← parse_stat_pid line
  (name, cursor) ← parse_stat_name line pid_end
  t ← read_fields 20 3 cursor no_times
  reject_if
      (not t.found_utime
        || not t.found_stime
        || not t.found_starttime
        || ltb (u64_max - t.utime) t.stime)
      (some (record {
        pid = pid;
        name = name;
        ticks = (t.utime + t.stime) % u64_mod;
        starttime = t.starttime;
      }))
