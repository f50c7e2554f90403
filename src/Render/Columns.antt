-- ===== src/Render/Columns.antt =====
-- The columns of the terminal that a text takes.
use rookietop.Common.{
  ℕ, suc, ◌+◌, ◌-◌, ◌≤◌, Bool, true, false, not, List, [], ◌∷◌, ◌++◌, ◌==◌, if◌then◌else◌, length,
  arith,
}
use mathlib.Core.List.{append_assoc, append-nil}
use rookietop.Libc.Chars.{Bytes}
use rookietop.Libc.Format.{printed, sum}
use rookietop.Render.{esc, ansi, ansi_reset}
use rookietop.Render.Plain.{IsPlain, is_plain}

-- The bytes that take a column; `sequence` is whether a sequence that sets a colour has started,
-- which ends with `m`.
unfoldable pub columns_from : Bool → Bytes → ℕ
columns_from sequence [] = 0
columns_from true (c ∷ cs) = columns_from (not (c == b'm')) cs
columns_from false (c ∷ cs) =
    let text = columns_from false cs in
    let started = columns_from true cs in if c == esc then started else suc text

abbrev pub columns : Bytes → ℕ
columns s = columns_from false s

-- In front of any text, `s` takes at most `n` columns.
pub record Takes (n : ℕ) (s : Bytes) : Type 0 where
  pub takes : (t : Bytes) → columns (s ++ t) ≤ n + columns t

pub plain-Takes : (n : ℕ) (s : Bytes) → IsPlain s → length s ≤ n → Takes n s
unfolding columns_from is_plain
plain-Takes n [] h k = record { takes = λ t. omega arith }
plain-Takes n (c ∷ cs) h k = record {
  takes = λ t.
      let rest =
        (plain-Takes (n - 1) cs (record { plain = ground (arith, h.plain) })
            (omega (arith, k))).takes
          t in
      ground (arith, h.plain, rest, k);
}

pub ansi_reset-Takes : Takes 0 ansi_reset
unfolding columns_from
ansi_reset-Takes = record { takes = λ t. omega arith }

pub ansi-Takes : (use_color : Bool) (code : Bytes) → Takes 0 code → Takes 0 (ansi use_color code)
ansi-Takes true code h = h
ansi-Takes false code h = record { takes = λ t. omega arith }

abbrev pub AllTake : List ℕ → List Bytes → Type 0
AllTake [] [] = Unit
AllTake (n ∷ ns) [] = ⊥
AllTake [] (piece ∷ pieces) = ⊥
AllTake (n ∷ ns) (piece ∷ pieces) = Takes n piece × AllTake ns pieces

pub printed-Takes :
    (ns : List ℕ) (pieces : List Bytes) → AllTake ns pieces → Takes (sum ns) (printed pieces)
unfolding printed
printed-Takes [] [] h = record { takes = λ t. omega arith }
printed-Takes (n ∷ ns) [] h = absurd h
printed-Takes [] (piece ∷ pieces) h = absurd h
printed-Takes (n ∷ ns) (piece ∷ pieces) h = record {
  takes = λ t.
      rw append_assoc
        (omega (arith, h.0.takes (printed pieces ++ t), (printed-Takes ns pieces h.1).takes t));
}

pub columns-Takes : (n : ℕ) (s : Bytes) → Takes n s → columns s ≤ n
unfolding columns_from
columns-Takes n s h =
    let bound : columns s ≤ n + 0 = rw append-nil at (h.takes []) in omega (arith, bound)
