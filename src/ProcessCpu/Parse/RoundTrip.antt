-- ===== src/ProcessCpu/Parse/RoundTrip.antt =====
-- What process_cpu_parse_stat makes of the line that the kernel prints.
use rookietop.Common.{
  ℕ, suc, ◌+◌, ◌≤◌, ◌<◌, ◌≡◌, refl, Bool, true, ◌&&◌, not, List, [], ◌∷◌, ◌++◌, none, some, ◌==◌,
  length, take, length-append, arith, ap, sym, ◌∙◌,
}
use mathlib.Core.List.{append_assoc}
use rookietop.Libc.Chars.{Bytes, is_space, strchr, strrchr, is_digit}
use rookietop.Libc.Decimal.{decimal}
use rookietop.Libc.Numbers.{u64_max, int_max, strtol-decimal}
use rookietop.ProcessCpu.Parse.{
  Times, no_times, store_field, read_fields, parse_stat_pid, parse_stat_name,
  process_cpu_parse_stat,
}
use rookietop.ProcessCpu.Parse.Token.{
  is_word, IsField, EndsField, words, AllFields, EndsField-words, parse_uint_token-decimal,
  decimal-IsField, read_fields-words, read_fields-number,
}

-- No byte of the text is a closing parenthesis.
unfoldable pub unclosed : Bytes → Bool
unclosed [] = true
unclosed (c ∷ cs) = not (c == b')') && unclosed cs

strrchr-none : (s : Bytes) → unclosed s ≡ true → strrchr s b')' ≡ none
unfolding strrchr unclosed
strrchr-none [] h = refl
strrchr-none (c ∷ cs) h = ground (arith, strrchr-none cs)

strrchr-last :
    (pre post : Bytes)
    → unclosed post ≡ true
    → strrchr (pre ++ b')' ∷ post) b')' ≡ some (b')' ∷ post)
unfolding strrchr
strrchr-last [] post h = ground (arith, strrchr-none post h)
strrchr-last (c ∷ cs) post h = ground (arith, strrchr-last cs post h)

-- What the kernel prints for a process: the fields 3 to 13 are `before`, the fields 16 to 21 are
-- `middle`, and `rest` is what follows the start time.
pub record StatLine : Type 0 where
  pub pid : ℕ
  pub name : Bytes
  pub before : List Bytes
  pub utime : ℕ
  pub stime : ℕ
  pub middle : List Bytes
  pub starttime : ℕ
  pub rest : Bytes

abbrev from_starttime : StatLine → Bytes
from_starttime l = 32 ∷ (decimal l.starttime ++ l.rest)

abbrev from_stime : StatLine → Bytes
from_stime l = 32 ∷ (decimal l.stime ++ words l.middle (from_starttime l))

abbrev from_utime : StatLine → Bytes
from_utime l = 32 ∷ (decimal l.utime ++ from_stime l)

abbrev fields : StatLine → Bytes
fields l = words l.before (from_utime l)

pub stat_line : StatLine → Bytes
stat_line l = decimal l.pid ++ (32 ∷ b'(' ∷ (l.name ++ b')' ∷ fields l))

-- The name is any text of 1 to 63 bytes.
pub record IsStatLine (l : StatLine) : Type 0 where
  pub positive : 0 < l.pid
  pub small : l.pid ≤ int_max
  pub named : 0 < length l.name
  pub name_fits : length l.name < 64
  pub before_count : length l.before ≡ 11
  pub before_fields : AllFields l.before
  pub middle_count : length l.middle ≡ 6
  pub middle_fields : AllFields l.middle
  pub starttime_fits : l.starttime ≤ u64_max
  pub ticks_fit : l.utime + l.stime ≤ u64_max
  pub rest_ends : EndsField l.rest
  pub rest_unclosed : unclosed l.rest ≡ true

unclosed-append : (s t : Bytes) → unclosed s ≡ true → unclosed t ≡ true → unclosed (s ++ t) ≡ true
unfolding unclosed
unclosed-append [] t h k = k
unclosed-append (c ∷ cs) t h k = ground (arith, unclosed-append cs t)

unclosed-word : (w : Bytes) → is_word w ≡ true → unclosed w ≡ true
unfolding unclosed is_word
unclosed-word [] h = refl
unclosed-word (c ∷ cs) h = ground (arith, unclosed-word cs)

unclosed-behind_word :
    (w rest : Bytes) → IsField w → unclosed rest ≡ true → unclosed (32 ∷ (w ++ rest)) ≡ true
unclosed-behind_word w rest h k = unfold unclosed in unclosed-append w rest (unclosed-word w h.0) k

unclosed-words :
    (ws : List Bytes) (rest : Bytes)
    → AllFields ws
    → unclosed rest ≡ true
    → unclosed (words ws rest) ≡ true
unfolding words
unclosed-words [] rest h k = k
unclosed-words (w ∷ ws) rest h k =
    unclosed-behind_word w (words ws rest) h.0 (unclosed-words ws rest h.1 k)

take-name : (s t : Bytes) → take (length s) (s ++ t) ≡ s
take-name [] t = refl
take-name (c ∷ cs) t = ap (◌∷◌ c) (take-name cs t)

module _ (l : StatLine) (h : IsStatLine l) where
  unclosed-fields : unclosed (fields l) ≡ true
  unclosed-fields = unclosed-words l.before (from_utime l) h.before_fields (
      unclosed-behind_word (decimal l.utime) (from_stime l) (decimal-IsField l.utime) (
        unclosed-behind_word (decimal l.stime) _ (decimal-IsField l.stime) (
          unclosed-words l.middle (from_starttime l) h.middle_fields (
            unclosed-behind_word (decimal l.starttime) l.rest (decimal-IsField l.starttime)
              h.rest_unclosed))))

  abbrev behind_pid : Bytes
  behind_pid = 32 ∷ b'(' ∷ (l.name ++ b')' ∷ fields l)

  parse_stat_pid-stat_line : parse_stat_pid (stat_line l) ≡ some (l.pid, behind_pid)
  unfolding parse_stat_pid stat_line
  parse_stat_pid-stat_line =
      let small : l.pid ≤ int_max = h.small in
      let positive : 0 < l.pid = h.positive in
      ground (arith, strtol-decimal l.pid behind_pid (omega arith) (unfold is_digit in refl))

  last_paren : strrchr (stat_line l) b')' ≡ some (b')' ∷ fields l)
  unfolding stat_line
  last_paren =
      ap (λ s. strrchr s b')')
        (sym (append_assoc (decimal l.pid) (32 ∷ b'(' ∷ l.name) (b')' ∷ fields l)))
      ∙ strrchr-last (decimal l.pid ++ 32 ∷ b'(' ∷ l.name) (fields l) unclosed-fields

  parse_stat_name-stat_line : parse_stat_name (stat_line l) behind_pid ≡ some (l.name, fields l)
  unfolding parse_stat_name strchr
  parse_stat_name-stat_line =
      let named : 0 < length l.name = h.named in
      let fits : length l.name < 64 = h.name_fits in
      ground (
        arith,
        last_paren,
        length-append l.name (b')' ∷ fields l),
        take-name l.name (b')' ∷ fields l),
      )

  abbrev all_times : Times
  all_times = record {
    utime = l.utime;
    stime = l.stime;
    starttime = l.starttime;
    found_utime = true;
    found_stime = true;
    found_starttime = true;
  }

  module _ (n : ℕ) (rest : Bytes) (t : Times) (e : EndsField rest) where
    read_fields-utime :
        read_fields (suc n) 14 (32 ∷ (decimal l.utime ++ rest)) t
        ≡ read_fields n 15 rest (record t { utime = l.utime; found_utime = true })
    unfolding store_field
    read_fields-utime = rw (
      read_fields-number n 14 l.utime rest t e,
      parse_uint_token-decimal l.utime (omega (arith, h.ticks_fit)),
    )

    read_fields-stime :
        read_fields (suc n) 15 (32 ∷ (decimal l.stime ++ rest)) t
        ≡ read_fields n 16 rest (record t { stime = l.stime; found_stime = true })
    unfolding store_field
    read_fields-stime = rw (
      read_fields-number n 15 l.stime rest t e,
      parse_uint_token-decimal l.stime (omega (arith, h.ticks_fit)),
    )

    read_fields-starttime :
        read_fields (suc n) 22 (32 ∷ (decimal l.starttime ++ rest)) t
        ≡ read_fields n 23 rest (record t { starttime = l.starttime; found_starttime = true })
    unfolding store_field
    read_fields-starttime = rw (
      read_fields-number n 22 l.starttime rest t e,
      parse_uint_token-decimal l.starttime h.starttime_fits,
    )

  read_fields-stat_line : read_fields 20 3 (fields l) no_times ≡ some all_times
  unfolding read_fields is_space
  read_fields-stat_line =
      read_fields-words l.before 20 9 3 14 (from_utime l) no_times (omega (arith, h.before_count))
        (omega (arith, h.before_count)) h.before_fields refl (λ f a b. ground arith)
      ∙ read_fields-utime 8 (from_stime l) no_times refl
      ∙ read_fields-stime 7 (words l.middle (from_starttime l)) _
          (EndsField-words l.middle (from_starttime l) refl)
      ∙ read_fields-words l.middle 7 1 16 22 (from_starttime l) _ (omega (arith, h.middle_count))
          (omega (arith, h.middle_count)) h.middle_fields refl (λ f a b. ground arith)
      ∙ read_fields-starttime 0 l.rest _ h.rest_ends

  -- The line that the kernel prints for a process parses to its pid, its name, the sum of its user
  -- and system ticks and its start time. The name is any text of 1 to 63 bytes, also with
  -- parentheses and spaces in it; no `)` follows it, and the sum fits in 64 bits.
  pub process_cpu_parse_stat-stat_line :
      process_cpu_parse_stat (stat_line l)
      ≡ some (record {
        pid = l.pid;
        name = l.name;
        ticks = l.utime + l.stime;
        starttime = l.starttime;
      })
  unfolding process_cpu_parse_stat
  process_cpu_parse_stat-stat_line =
      let fits : l.utime + l.stime ≤ u64_max = h.ticks_fit in
      ground (arith, parse_stat_pid-stat_line, parse_stat_name-stat_line, read_fields-stat_line)
