-- ===== src/Render/Wrap/Lines.antt =====
-- The lines of a wrapped text: they are all there, they fit, and no word is lost.
use rookietop.Common.{
  ℕ, zero, suc, ◌+◌, ◌<◌, ◌≤◌, ◌≡◌, refl, ltb, if◌then◌else◌, List, [], ◌∷◌, ◌++◌, Option, none,
  some, length, take, drop, length-take, length-drop, take-append-drop, arith, ap, ◌∙◌, sym,
}
use mathlib.Core.Option.{some-injective}
use rookietop.Libc.Chars.{Bytes, skip_while}
use rookietop.Libc.Format.{printed}
use rookietop.Libc.Int.{ℤ, pos}
use rookietop.Render.Wrap.{
  place_lines, print_wrapped, is_blank_char, split_at, next_take, wrap_round, wrap, wrapped_lines,
}

-- The characters that are not blanks.
unfoldable pub words : Bytes → Bytes
words [] = []
words (c ∷ cs) = if is_blank_char c then words cs else c ∷ words cs

abbrev pub AllFit : ℕ → List Bytes → Type 0
AllFit width [] = Unit
AllFit width (line ∷ rest) = (length line ≤ width) × AllFit width rest

words-append : (s t : Bytes) → words (s ++ t) ≡ words s ++ words t
unfolding words
words-append [] t = refl
words-append (c ∷ cs) t = ground (arith, words-append cs t)

words-skip_while : (s : Bytes) → words (skip_while is_blank_char s) ≡ words s
unfolding words skip_while
words-skip_while [] = refl
words-skip_while (c ∷ cs) = ground (arith, words-skip_while cs)

length-skip_while : (s : Bytes) → length (skip_while is_blank_char s) ≤ length s
unfolding skip_while
length-skip_while [] = omega arith
length-skip_while (c ∷ cs) = ground (arith, length-skip_while cs)

split_at-le : (cursor : Bytes) (k : ℕ) → split_at cursor k ≤ k
unfolding split_at
split_at-le cursor zero = omega arith
split_at-le cursor (suc k) = ground (arith, split_at-le cursor k)

next_take-le : (width : ℕ) (cursor : Bytes) → next_take width cursor ≤ width
unfolding next_take
next_take-le width cursor =
    ground (arith, split_at-le cursor (if ltb (length cursor) width then length cursor else width))

next_take-pos : (width : ℕ) (c : ℕ) (cs : Bytes) → 0 < width → 0 < next_take width (c ∷ cs)
unfolding next_take
next_take-pos width c cs h = ground arith

-- What wrap makes of a text within its fuel.
abbrev Wraps : ℕ → Bytes → Option (List Bytes) → Type 0
Wraps width text result =
    (lines : List Bytes) × (result ≡ some lines)
    × AllFit width lines
    × (words (printed lines) ≡ words text)

wrap_round-Wraps :
    (width : ℕ) (cursor : Bytes) (rest : Option (List Bytes))
    → Wraps width (drop (next_take width cursor) cursor) rest
    → Wraps width cursor (wrap_round width cursor rest)
unfolding wrap_round printed
wrap_round-Wraps width [] rest h = ([], refl, tt, refl)
wrap_round-Wraps width (c ∷ cs) none (lines, e, fit, kept) = cc
wrap_round-Wraps width (c ∷ cs) (some found) (lines, e, fit, kept) =
    let taken = next_take width (c ∷ cs) in
    let line = take taken (c ∷ cs) in
    (
      line ∷ lines,
      ap (λ ls. some (line ∷ ls)) (some-injective found lines e),
      (omega (arith, length-take taken (c ∷ cs), next_take-le width (c ∷ cs)), fit),
      words-append line (printed lines)
          ∙ ap (λ t. words line ++ t) kept
          ∙ sym (words-append line (drop taken (c ∷ cs)))
          ∙ ap words (take-append-drop taken (c ∷ cs)),
    )

length-rest :
    (fuel width : ℕ) (cursor : Bytes)
    → 0 < width
    → length cursor ≤ suc fuel
    → length (drop (next_take width cursor) cursor) ≤ fuel
length-rest fuel width [] h k = omega (arith, length-drop {A = ℕ} (next_take width []) [])
length-rest fuel width (c ∷ cs) h k =
    omega (arith, length-drop (next_take width (c ∷ cs)) (c ∷ cs), next_take-pos width c cs h)

Wraps-skip_while :
    (width : ℕ) (text : Bytes) (result : Option (List Bytes))
    → Wraps width (skip_while is_blank_char text) result
    → Wraps width text result
Wraps-skip_while width text result (lines, e, fit, kept) =
    (lines, e, fit, kept ∙ words-skip_while text)

wrap-Wraps :
    (fuel width : ℕ) (text : Bytes)
    → 0 < width
    → length text ≤ fuel
    → Wraps width text (wrap fuel width text)
unfolding wrap printed
wrap-Wraps zero width [] h k = ([], unfold skip_while in unfold wrap_round in refl, tt, refl)
wrap-Wraps zero width (c ∷ cs) h k = absurd (omega arith)
wrap-Wraps (suc fuel) width text h k =
    let cursor = skip_while is_blank_char text in
    let rest = drop (next_take width cursor) cursor in
    Wraps-skip_while width text (wrap (suc fuel) width text) (
      wrap_round-Wraps width cursor (wrap fuel width rest) (
        wrap-Wraps fuel width rest h
          (length-rest fuel width cursor h (omega (arith, length-skip_while text)))))

-- For a width of at least 1, print_wrapped ends: it prints lines of at most that width, which have
-- the characters of the text but blanks, all of them and in their order.
pub wrapped_lines-Wraps :
    (width : ℕ) (text : Bytes)
    → 0 < width
    → (lines : List Bytes) × (wrapped_lines width text ≡ some lines)
      × AllFit width lines
      × (words (printed lines) ≡ words text)
wrapped_lines-Wraps width text h = wrap-Wraps (length text) width text h (omega arith)

pub print_wrapped-eq-some :
    (row : ℕ) (col : ℤ) (width : ℕ) (text : Bytes)
    → 0 < width
    → (out : Bytes × ℕ) × (print_wrapped row col width text ≡ some out)
unfolding print_wrapped
print_wrapped-eq-some row col width text h =
    let (lines, e, fit, kept) = wrapped_lines-Wraps width text h in
    ((place_lines (pos row) col lines, row + length lines), rw (e, print_wrapped) refl)
