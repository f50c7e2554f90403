-- ===== src/Libc/Float.antt =====
-- The `double` of the C implementation, as an interface: its operations, and the order of the
-- values that are numbers.
use rookietop.Libc.Chars.{Bytes}
use rookietop.Libc.Int.{ℤ}
use rookietop.Common.{Option, ℕ, ◌≡◌, ◌⊎◌, Bool, true}

pub record Float : Type 1 where
  pub Double : Type 0
  -- (double)n
  pub of_u64 : ℕ → Double
  -- the literal n / d, as 1.25 for 125 and 100
  pub literal : ℕ → ℕ → Double
  pub negate : Double → Double
  pub add : Double → Double → Double
  pub mul : Double → Double → Double
  pub div : Double → Double → Double
  -- (double)n of a signed n
  pub of_int : ℤ → Double
  -- (int)a, (long)a and (size_t)a
  pub truncate : Double → ℤ
  -- `%lf` of fscanf: the number and the text behind it
  pub scan : Bytes → Option (Double × Bytes)
  -- `%.nf` of printf
  pub fixed : ℕ → Double → Bytes
  -- a < b, a <= b
  pub lt : Double → Double → Bool
  pub le : Double → Double → Bool

-- The order of doubles: a value is a number, and not a NaN, if it is at most itself, and the values
-- that are numbers compare as numbers do.
pub record IsOrdered (f : Float) : Type 1 where
  pub total :
      (a b : f.Double) → f.le a a ≡ true → f.le b b ≡ true → (f.le a b ≡ true) ⊎ (f.le b a ≡ true)
  pub trans : (a b c : f.Double) → f.le a b ≡ true → f.le b c ≡ true → f.le a c ≡ true
  -- a comparison holds only between numbers
  pub le_numbers : (a b : f.Double) → f.le a b ≡ true → (f.le a a ≡ true) × (f.le b b ≡ true)
  pub lt_numbers : (a b : f.Double) → f.lt a b ≡ true → (f.le a a ≡ true) × (f.le b b ≡ true)
