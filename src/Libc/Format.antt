-- ===== src/Libc/Format.antt =====
-- The conversions of printf that the code uses, as functions into bytes.
use mathlib.Core.Path.{subst}
use mathlib.Core.List.{append_assoc}
use mathlib.Core.Option.{some-injective}
use rookietop.Common.{
  zero, suc, some, get_elem?, ◌≡◌, refl, ap, ◌∙◌, sym, ℕ, ◌+◌, ◌-◌, ◌≤◌, List, [], ◌∷◌, ◌++◌,
  length, length-append, take, replicate, arith,
}
use rookietop.Libc.Chars.{Bytes}
use rookietop.Libc.Int.{ℤ, pos, negsuc, pos_part}

-- The pieces that a function prints, in their order.
unfoldable pub printed : List Bytes → Bytes
printed [] = []
printed (piece ∷ rest) = piece ++ printed rest

-- `%-ns`
abbrev pub pad_right : ℕ → Bytes → Bytes
pad_right n s = s ++ replicate (n - length s) 32

-- `%ns`
abbrev pub pad_left : ℕ → Bytes → Bytes
pad_left n s = replicate (n - length s) 32 ++ s

-- `%0nd` of a number that is not negative
abbrev pub pad_zeros : ℕ → Bytes → Bytes
pad_zeros n s = replicate (n - length s) b'0' ++ s

-- `%.*s`: a negative precision is as none.
abbrev pub take_precision : ℤ → Bytes → Bytes
take_precision (pos n) s = take n s
take_precision (negsuc n) s = s

-- for (int i = 0; i < width; i++) putchar(c);
abbrev pub repeat_char : ℤ → ℕ → Bytes
repeat_char width c = replicate (pos_part width) c

-- Each piece has at most the number of bytes that stands against it.
abbrev pub Within : List Bytes → List ℕ → Type 0
Within [] [] = Unit
Within [] (n ∷ ns) = ⊥
Within (piece ∷ pieces) [] = ⊥
Within (piece ∷ pieces) (n ∷ ns) = (length piece ≤ n) × Within pieces ns

abbrev pub sum : List ℕ → ℕ
sum [] = 0
sum (n ∷ ns) = n + sum ns

pub length-printed :
    (pieces : List Bytes) (bounds : List ℕ)
    → Within pieces bounds
    → length (printed pieces) ≤ sum bounds
unfolding printed
length-printed [] [] h = omega arith
length-printed [] (n ∷ ns) h = absurd h
length-printed (piece ∷ pieces) [] h = absurd h
length-printed (piece ∷ pieces) (n ∷ ns) h =
    omega (arith, length-append piece (printed pieces), h.0, length-printed pieces ns h.1)

-- The text stands somewhere in the whole.
abbrev pub IsPart : Bytes → Bytes → Type 0
IsPart text whole = (before : Bytes) × (after : Bytes) × (whole ≡ before ++ (text ++ after))

pub IsPart-left : (s t text : Bytes) → IsPart text t → IsPart text (s ++ t)
IsPart-left s t text (before, after, e) =
    (s ++ before, after, ap (λ r. s ++ r) e ∙ sym (append_assoc s before (text ++ after)))

pub IsPart-right : (s t text : Bytes) → IsPart text s → IsPart text (s ++ t)
IsPart-right s t text (before, after, e) = (
  before,
  after ++ t,
  ap (λ r. r ++ t) e
      ∙ append_assoc before (text ++ after) t
      ∙ ap (λ r. before ++ r) (append_assoc text after t),
)

IsPart-head : (s t : Bytes) → IsPart s (s ++ t)
IsPart-head s t = ([], t, refl)

-- A piece that is printed is part of what is printed.
pub printed-IsPart :
    (pieces : List Bytes) (i : ℕ) (piece : Bytes)
    → get_elem? pieces i ≡ some piece
    → IsPart piece (printed pieces)
unfolding printed
printed-IsPart [] i piece h = cc
printed-IsPart (p ∷ ps) zero piece h =
    subst (λ q. IsPart q (p ++ printed ps)) (some-injective p piece h) (IsPart-head p (printed ps))
printed-IsPart (p ∷ ps) (suc i) piece h =
    IsPart-left p (printed ps) piece (printed-IsPart ps i piece h)
