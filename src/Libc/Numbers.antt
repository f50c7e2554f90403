-- ===== src/Libc/Numbers.antt =====
-- strtol, strtoull and the conversions of sscanf, for base 10 and 64-bit `long`.
use rookietop.Common.{
  ℕ, zero, suc, ◌+◌, ◌-◌, ◌%◌, ◌≤◌, ◌≡◌, Bool, true, false, List, [], ◌∷◌, ◌++◌, Option, none, some,
  arith, ltb, ◌==◌, if◌then◌else◌, ap, ◌∙◌, sym,
}
use rookietop.Libc.Chars.{
  Bytes, is_digit, is_space, skip_while, skip_while-cons, skip_while-stop, digit_not_space,
}
use rookietop.Libc.Decimal.{read_digits, decimal, EndsNumber, read_digits-decimal, decimal-cons}

-- UINT64_MAX + 1
abbrev pub u64_mod : ℕ
u64_mod = 0x1_0000_0000_0000_0000

-- UINT64_MAX
abbrev pub u64_max : ℕ
u64_max = 0xffff_ffff_ffff_ffff

-- INT_MAX
abbrev pub int_max : ℕ
int_max = 0x7fff_ffff

-- LONG_MAX
abbrev pub long_max : ℕ
long_max = 0x7fff_ffff_ffff_ffff

-- An optional sign: whether it is `-`, and what follows.
unfoldable pub take_sign : Bytes → Bool × Bytes
take_sign [] = (false, [])
take_sign (c ∷ cs) =
    if c == b'-' then (true, cs) else if c == b'+' then (false, cs) else (false, c ∷ cs)

-- At least one digit.
unfoldable pub number : Bytes → Option (ℕ × Bytes)
number [] = none
number (c ∷ cs) = if is_digit c then some (read_digits 0 (c ∷ cs)) else none

-- The sign, the magnitude and the rest of a number behind optional white space.
unfoldable pub signed : Bytes → Option (Bool × ℕ × Bytes)
signed s =
    let (neg, t) = take_sign (skip_while is_space s) in
    elim (number t) [ none ↦ none | some (m, rest) ↦ some (neg, m, rest) ]

-- What a conversion function returns, stores at `endptr` and says by `errno`. A negative `long` is
-- kept as its sign and magnitude.
pub record Converted : Type 0 where
  pub negative : Bool
  pub magnitude : ℕ
  pub rest : Bytes
  pub converted : Bool
  pub range_error : Bool

abbrev not_converted : Bytes → Converted
not_converted s = record {
  negative = false;
  magnitude = 0;
  rest = s;
  converted = false;
  range_error = false;
}

-- strtol(s, &rest, 10)
unfoldable pub strtol : Bytes → Converted
strtol s = elim (signed s) [
  | none ↦ not_converted s
  | some (neg, m, rest) ↦
      let limit = if neg then long_max + 1 else long_max in
      record {
        negative = neg;
        magnitude = if ltb limit m then limit else m;
        rest = rest;
        converted = true;
        range_error = ltb limit m;
      }
]

-- strtoull(s, &rest, 10): a minus sign negates modulo 2 ^ 64.
unfoldable pub strtoull : Bytes → Converted
strtoull s = elim (signed s) [
  | none ↦ not_converted s
  | some (neg, m, rest) ↦ record {
    negative = false;
    magnitude = if ltb u64_max m then u64_max else if neg then (u64_mod - m) % u64_mod else m;
    rest = rest;
    converted = true;
    range_error = ltb u64_max m;
  }
]

-- The conversion ` %lu` of sscanf, which saturates as strtoull does.
unfoldable pub scan_u64 : Bytes → Option (ℕ × Bytes)
scan_u64 s = let r = strtoull s in if r.converted then some (r.magnitude, r.rest) else none

-- sscanf with `n` conversions ` %lu`: the values assigned before the first that fails.
unfoldable pub scan_fields : ℕ → Bytes → List ℕ
scan_fields zero s = []
scan_fields (suc n) s = elim (scan_u64 s) [ none ↦ [] | some (v, rest) ↦ v ∷ scan_fields n rest ]

-- The bytes of at most `n` characters that are not white space, and the rest.
unfoldable pub take_word : ℕ → Bytes → Bytes × Bytes
take_word zero s = ([], s)
take_word (suc n) [] = ([], [])
take_word (suc n) (c ∷ cs) =
    let (w, rest) = take_word n cs in if is_space c then ([], c ∷ cs) else (c ∷ w, rest)

-- sscanf(s, " %lu %2s %c", &value, unit, &extra): the number of conversions, `value` and `unit`.
unfoldable pub scan_amount : Bytes → ℕ × ℕ × Bytes
scan_amount s = elim (scan_u64 s) [
  | none ↦ (0, 0, [])
  | some (v, rest) ↦
      let (unit, rest') = take_word 2 (skip_while is_space rest) in
      elim unit [
        | [] ↦ (1, v, [])
        | u ∷ us ↦ elim (skip_while is_space rest') [
          | [] ↦ (2, v, u ∷ us)
          | x ∷ xs ↦ (3, v, u ∷ us)
        ]
      ]
]

-- All that a test of a conversion computes with.
unfoldable pub conversions : Unit {0}
unfolding signed skip_while is_space is_digit take_sign number read_digits strtol strtoull scan_u64
    scan_fields take_word scan_amount
conversions = tt

pub signed-space : (c : ℕ) (s : Bytes) → is_space c ≡ true → signed (c ∷ s) ≡ signed s
unfolding signed
signed-space c s h = ground (arith, skip_while-cons is_space c s h)

take_sign-digit : (c : ℕ) (s : Bytes) → is_digit c ≡ true → take_sign (c ∷ s) ≡ (false, c ∷ s)
unfolding take_sign is_digit
take_sign-digit c s h = ground arith

pub signed-digit :
    (c : ℕ) (s : Bytes)
    → is_digit c ≡ true
    → signed (c ∷ s) ≡ some (false, (read_digits 0 (c ∷ s)).0, (read_digits 0 (c ∷ s)).1)
unfolding signed number
signed-digit c s h =
    ground (arith, skip_while-stop is_space c s (digit_not_space c h), take_sign-digit c s h)

-- A printed number is read back, with what follows it.
pub signed-decimal :
    (n : ℕ) (rest : Bytes) → EndsNumber rest → signed (decimal n ++ rest) ≡ some (false, n, rest)
signed-decimal n rest h =
    let (d, ds, e, digit) = decimal-cons n in
    ap (λ t. signed (t ++ rest)) e
    ∙ signed-digit d (ds ++ rest) digit
    ∙ ap (λ (r : ℕ × Bytes). some (false, r.0, r.1))
        (ap (λ t. read_digits 0 (t ++ rest)) (sym e) ∙ read_digits-decimal n rest h)

-- What a conversion of a printed number returns.
abbrev pub printed : ℕ → Bytes → Converted
printed n rest = record {
  negative = false;
  magnitude = n;
  rest = rest;
  converted = true;
  range_error = false;
}

pub strtoull-decimal :
    (n : ℕ) (rest : Bytes)
    → n ≤ u64_max
    → EndsNumber rest
    → strtoull (decimal n ++ rest) ≡ printed n rest
unfolding strtoull
strtoull-decimal n rest h e = ground (arith, signed-decimal n rest e)

pub strtol-decimal :
    (n : ℕ) (rest : Bytes)
    → n ≤ long_max
    → EndsNumber rest
    → strtol (decimal n ++ rest) ≡ printed n rest
unfolding strtol
strtol-decimal n rest h e = ground (arith, signed-decimal n rest e)

pub scan_u64-decimal :
    (n : ℕ) (rest : Bytes)
    → n ≤ u64_max
    → EndsNumber rest
    → scan_u64 (decimal n ++ rest) ≡ some (n, rest)
unfolding scan_u64
scan_u64-decimal n rest h e = rw (strtoull-decimal n rest h e)

pub scan_u64-space : (c : ℕ) (s : Bytes) → is_space c ≡ true → scan_u64 (c ∷ s) ≡ scan_u64 s
unfolding scan_u64 strtoull
scan_u64-space c s h = ground (arith, signed-space c s h)
