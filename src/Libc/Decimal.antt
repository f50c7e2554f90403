-- ===== src/Libc/Decimal.antt =====
-- Decimal numbers: what `%d` and `%u` print, and what reading the digits gives back.
use rookietop.Common.{
  ◌^◌, ◌≤◌, Bool, ◌&&◌, length, length-append, ℕ, zero, suc, ◌+◌, ◌-◌, ◌*◌, ◌/◌, ◌%◌, ◌<◌, ◌≡◌,
  refl, true, false, [], ◌∷◌, ◌++◌, arith, ltb, if◌then◌else◌, inl, inr, Bool-cases, ◌∙◌, ap,
  ltb→lt,
}
use mathlib.Core.List.{append_assoc}
use rookietop.Libc.Chars.{Bytes, is_digit}

-- The digits of a number, by fuel: a number below the fuel is printed whole.
unfoldable pub digits_below : ℕ → ℕ → Bytes
digits_below zero n = []
digits_below (suc f) n =
    let higher = digits_below f (n / 10) ++ (48 + n % 10) ∷ [] in
    if ltb n 10 then (48 + n) ∷ [] else higher

unfoldable pub decimal : ℕ → Bytes
unfolding digits_below
decimal n = digits_below (suc n) n

-- The loop over the digits of `strtol` and its kin, and where it stops.
unfoldable pub read_digits : ℕ → Bytes → ℕ × Bytes
unfolding is_digit
read_digits acc [] = (acc, [])
read_digits acc (c ∷ cs) =
    if is_digit c then read_digits (acc * 10 + (c - 48)) cs else (acc, c ∷ cs)

-- The text does not go on with a digit.
abbrev pub EndsNumber : Bytes → Type 0
EndsNumber [] = Unit
EndsNumber (c ∷ cs) = is_digit c ≡ false

pub read_digits-end : (n : ℕ) (rest : Bytes) → EndsNumber rest → read_digits n rest ≡ (n, rest)
unfolding read_digits
read_digits-end n [] h = refl
read_digits-end n (c ∷ cs) h = rw h

read_digits-digit :
    (acc d : ℕ) (rest : Bytes)
    → d < 10
    → read_digits acc ((48 + d) ∷ rest) ≡ read_digits (acc * 10 + d) rest
unfolding read_digits
read_digits-digit acc d rest h =
    let digit : is_digit (48 + d) ≡ true = ground arith in
    rw digit (ap (λ k. read_digits k rest) (omega arith))

read_digits-digits_below :
    (f n : ℕ) (rest : Bytes) → n < f → read_digits 0 (digits_below f n ++ rest) ≡ read_digits n rest
unfolding read_digits digits_below
read_digits-digits_below zero n rest h = absurd (omega arith)
read_digits-digits_below (suc f) n rest h = elim (Bool-cases (ltb n 10)) [
  | inl small ↦
      rw small (
        read_digits-digit 0 n rest (ltb→lt n 10 small) ∙ ap (λ k. read_digits k rest) (omega arith))
  | inr large ↦ rw large (
      ap (read_digits 0) (append_assoc (digits_below f (n / 10)) ((48 + n % 10) ∷ []) rest)
      ∙ read_digits-digits_below f (n / 10) ((48 + n % 10) ∷ rest) (ground arith)
      ∙ read_digits-digit (n / 10) (n % 10) rest (omega arith)
      ∙ ap (λ k. read_digits k rest) (omega arith))
]

-- Reading a printed number gives the number, and stops behind it.
pub read_digits-decimal :
    (n : ℕ) (rest : Bytes) → EndsNumber rest → read_digits 0 (decimal n ++ rest) ≡ (n, rest)
unfolding decimal
read_digits-decimal n rest h =
    read_digits-digits_below (suc n) n rest (omega arith) ∙ read_digits-end n rest h

-- A printed number starts with a digit.
pub digits_below-cons :
    (f n : ℕ) → n < f → (d : ℕ) × (ds : Bytes) × (digits_below f n ≡ d ∷ ds) × (is_digit d ≡ true)
unfolding digits_below is_digit
digits_below-cons zero n h = absurd (omega arith)
digits_below-cons (suc f) n h = elim (Bool-cases (ltb n 10)) [
  | inl small ↦ (48 + n, [], rw small refl, ground arith)
  | inr large ↦
      let (d, ds, e, digit) = digits_below-cons f (n / 10) (ground arith) in
      (d, ds ++ (48 + n % 10) ∷ [], rw large (rw e), digit)
]

pub decimal-cons : (n : ℕ) → (d : ℕ) × (ds : Bytes) × (decimal n ≡ d ∷ ds) × (is_digit d ≡ true)
unfolding decimal
decimal-cons n = digits_below-cons (suc n) n (omega arith)

pow_step : (k : ℕ) → 10 ^ suc k ≡ 10 * 10 ^ k
pow_step k = omega arith

pub length-digits_below : (k f n : ℕ) → n < f → n < 10 ^ suc k → length (digits_below f n) ≤ suc k
unfolding digits_below
length-digits_below k zero n h small = absurd (omega arith)
length-digits_below zero (suc f) n h small = ground arith
length-digits_below (suc k) (suc f) n h small =
    let bound : n < 10 * 10 ^ suc k = rw (← pow_step (suc k)) small in
    elim (Bool-cases (ltb n 10)) [
      | inl one ↦ rw one (omega arith)
      | inr more ↦ rw more (
          omega (
            arith,
            length-append (digits_below f (n / 10)) ((48 + n % 10) ∷ []),
            length-digits_below k f (n / 10) (ground arith) (omega arith),
          ))
    ]

-- A 64-bit number has at most 20 digits.
pub length-decimal : (n : ℕ) → n < 10 ^ 20 → length (decimal n) ≤ 20
unfolding decimal
length-decimal n h = length-digits_below 19 (suc n) n (omega arith) h

-- Only digits are printed.
unfoldable pub all_digits : Bytes → Bool
all_digits [] = true
all_digits (c ∷ cs) = is_digit c && all_digits cs

all_digits-append :
    (s : Bytes) (d : ℕ) → all_digits s ≡ true → is_digit d ≡ true → all_digits (s ++ d ∷ []) ≡ true
unfolding all_digits
all_digits-append [] d h k = ground arith
all_digits-append (c ∷ cs) d h k = ground (arith, all_digits-append cs d)

all_digits-digits_below : (f n : ℕ) → all_digits (digits_below f n) ≡ true
unfolding digits_below
all_digits-digits_below zero n = unfold all_digits in refl
all_digits-digits_below (suc f) n =
    let last : is_digit (48 + n % 10) ≡ true = unfold is_digit in ground arith in
    elim (Bool-cases (ltb n 10)) [
      | inl small ↦ rw small (
          all_digits-append [] (48 + n) (unfold all_digits in refl)
            (unfold is_digit in ground arith))
      | inr large ↦ rw large (
          all_digits-append (digits_below f (n / 10)) (48 + n % 10)
            (all_digits-digits_below f (n / 10)) last)
    ]

pub all_digits-decimal : (n : ℕ) → all_digits (decimal n) ≡ true
unfolding decimal
all_digits-decimal n = all_digits-digits_below (suc n) n
