-- ===== src/ProcessCpu/Parse/Token.antt =====
-- The loop over the fields on a line of printed fields.
use rookietop.Common.{
  ℕ, zero, suc, ◌+◌, ◌≤◌, ◌<◌, ◌≡◌, refl, Bool, true, false, ◌&&◌, not, List, [], ◌∷◌, ◌++◌, Option,
  none, some, ◌==◌, ◌>>=◌, length, arith, ◌∙◌,
}
use mathlib.Core.List.{append-nil}
use rookietop.Libc.Chars.{
  Bytes, is_space, is_digit, skip_while, take_until, skip_while-stop, skip_while-cons,
}
use rookietop.Libc.Decimal.{decimal, all_digits, all_digits-decimal, length-decimal, decimal-cons}
use rookietop.Libc.Numbers.{u64_max, strtoull-decimal}
use rookietop.ProcessCpu.Parse.{
  Times, parse_uint_token, store_field, is_not_space, read_field, read_fields,
}

-- The bytes of one field: no white space, and no `)`.
unfoldable pub is_word : Bytes → Bool
is_word [] = true
is_word (c ∷ cs) = not (is_space c) && not (c == b')') && is_word cs

abbrev pub IsField : Bytes → Type 0
IsField w = (is_word w ≡ true) × (0 < length w)

-- The text goes on with white space, or ends.
abbrev pub EndsField : Bytes → Type 0
EndsField [] = Unit
EndsField (c ∷ cs) = is_space c ≡ true

take_until-word :
    (w rest : Bytes) → is_word w ≡ true → EndsField rest → take_until is_space (w ++ rest) ≡ w
unfolding take_until is_word
take_until-word [] [] h e = refl
take_until-word [] (c ∷ cs) h e = ground arith
take_until-word (c ∷ cs) rest h e = ground (arith, take_until-word cs rest)

skip_while-word :
    (w rest : Bytes)
    → is_word w ≡ true
    → EndsField rest
    → skip_while is_not_space (w ++ rest) ≡ rest
unfolding skip_while is_word is_not_space
skip_while-word [] [] h e = refl
skip_while-word [] (c ∷ cs) h e = ground arith
skip_while-word (c ∷ cs) rest h e = ground (arith, skip_while-word cs rest)

pub read_field-word :
    (field : ℕ) (w rest : Bytes) (t : Times)
    → IsField w
    → EndsField rest
    → read_field field (32 ∷ (w ++ rest)) t ≡ (store_field field w t >>= λ t'. some (rest, t'))
unfolding read_field is_word
read_field-word field [] rest t (h, long) e = absurd (omega arith)
read_field-word field (c ∷ cs) rest t (h, long) e =
    let visible : is_space c ≡ false = ground arith in
    ground (
      arith,
      skip_while-cons is_space 32 (c ∷ (cs ++ rest)) (unfold is_space in refl),
      skip_while-stop is_space c (cs ++ rest) visible,
      take_until-word (c ∷ cs) rest h e,
      skip_while-word (c ∷ cs) rest h e,
    )

pub parse_uint_token-decimal : (n : ℕ) → n ≤ u64_max → parse_uint_token (decimal n) ≡ some n
unfolding parse_uint_token
parse_uint_token-decimal n h =
    let (d, ds, e, digit) = decimal-cons n in
    let read = rw append-nil at (strtoull-decimal n [] h tt) in
    let short : length (decimal n) ≤ 20 = length-decimal n (omega arith) in
    let long : 0 < length (decimal n) = rw e (omega arith) in ground arith

all_digits-is_word : (s : Bytes) → all_digits s ≡ true → is_word s ≡ true
unfolding all_digits is_word is_digit is_space
all_digits-is_word [] h = refl
all_digits-is_word (c ∷ cs) h = ground (arith, all_digits-is_word cs)

pub decimal-IsField : (n : ℕ) → IsField (decimal n)
decimal-IsField n =
    let (d, ds, e, digit) = decimal-cons n in
    (all_digits-is_word (decimal n) (all_digits-decimal n), rw e (omega arith))

-- Fields, each behind a space.
unfoldable pub words : List Bytes → Bytes → Bytes
words [] rest = rest
words (w ∷ ws) rest = 32 ∷ (w ++ words ws rest)

abbrev pub AllFields : List Bytes → Type 0
AllFields [] = Unit
AllFields (w ∷ ws) = IsField w × AllFields ws

pub EndsField-words : (ws : List Bytes) (rest : Bytes) → EndsField rest → EndsField (words ws rest)
unfolding words is_space
EndsField-words [] rest h = h
EndsField-words (w ∷ ws) rest h = refl

-- The fields that the loop only passes over.
abbrev pub is_plain : ℕ → Bool
is_plain field = not (field == 14) && not (field == 15) && not (field == 22)

store_field-plain :
    (field : ℕ) (w : Bytes) (t : Times) → is_plain field ≡ true → store_field field w t ≡ some t
unfolding store_field
store_field-plain field w t h = ground arith

read_fields-plain :
    (n field : ℕ) (w rest : Bytes) (t : Times)
    → IsField w
    → EndsField rest
    → is_plain field ≡ true
    → read_fields (suc n) field (32 ∷ (w ++ rest)) t ≡ read_fields n (suc field) rest t
unfolding read_fields
read_fields-plain n field w rest t h e plain =
    ground (arith, read_field-word field w rest t h e, store_field-plain field w t plain)

-- Passing over fields none of which is stored.
pub read_fields-words :
    (ws : List Bytes) (k n field field' : ℕ) (rest : Bytes) (t : Times)
    → k ≡ length ws + n
    → field' ≡ field + length ws
    → AllFields ws
    → EndsField rest
    → ((f : ℕ) → field ≤ f → f < field' → is_plain f ≡ true)
    → read_fields k field (words ws rest) t ≡ read_fields n field' rest t
unfolding words
read_fields-words [] k n field field' rest t p q h e plain =
    let k-n : k ≡ n = omega arith in let same : field' ≡ field = omega arith in rw (k-n, same)
read_fields-words (w ∷ ws) zero n field field' rest t p q h e plain = absurd (omega arith)
read_fields-words (w ∷ ws) (suc k) n field field' rest t p q h e plain =
    read_fields-plain k field w (words ws rest) t h.0 (EndsField-words ws rest e)
      (plain field (omega arith) (omega arith))
    ∙ read_fields-words ws k n (suc field) field' rest t (omega arith) (omega arith) h.1 e
        (λ f a b. plain f (omega arith) b)

-- Storing one of the three numbers.
pub read_fields-number :
    (n field v : ℕ) (rest : Bytes) (t : Times)
    → EndsField rest
    → read_fields (suc n) field (32 ∷ (decimal v ++ rest)) t
      ≡ (store_field field (decimal v) t >>= λ t'. read_fields n (suc field) rest t')
unfolding read_fields
read_fields-number n field v rest t e =
    rw (read_field-word field (decimal v) rest t (decimal-IsField v) e, read_fields)
      (assoc (store_field field (decimal v) t))
  where
    assoc :
        (m : Option Times)
        → ((m >>= λ t'. some (rest, t')) >>= λ (r : Bytes × Times).
            read_fields n (suc field) r.0 r.1)
          ≡ (m >>= λ t'. read_fields n (suc field) rest t')
    assoc none = refl
    assoc (some a) = refl
