-- ===== src/Terminal/Keys.antt =====
-- Which keys terminal_input_read_key returns.
use rookietop.Common.{ℕ, ◌<◌, ◌≡◌, ◌↔◌, inl, inr, none, some, arith, Option-cases}
use rookietop.App.State.{input_up, input_down}
use rookietop.Terminal.{
  ready, poll_error, Answers, escape_byte, read_third, read_sequence, terminal_input_read_key,
}

-- Every byte that read gives is below 256.
pub record AreBytes (answers : Answers) : Type 0 where
  pub first : (b : ℕ) → answers.first_byte ≡ some b → b < 256

-- The bytes ESC [ c have all come in time.
pub record IsSequence (answers : Answers) (c : ℕ) : Type 0 where
  pub first_ready : answers.first_wait ≡ ready
  pub first : answers.first_byte ≡ some escape_byte
  pub second_ready : answers.second_wait ≡ ready
  pub second : answers.second_byte ≡ some b'['
  pub third_ready : answers.third_wait ≡ ready
  pub third : answers.third_byte ≡ some c

-- The byte that was read first, if any.
byte_of : Answers → ℕ
byte_of answers = elim answers.first_byte [ none ↦ 0 | some b ↦ b ]

byte_of-lt : (answers : Answers) → AreBytes answers → byte_of answers < 256
unfolding byte_of
byte_of-lt answers bytes = elim (Option-cases answers.first_byte) [
  | inl e ↦ rw (e, byte_of) (omega arith)
  | inr (b, e) ↦ rw (e, byte_of) (bytes.first b e)
]

-- The code that stands for an arrow is the key exactly when the bytes ESC [ and its letter come in
-- time: no other bytes give an arrow, since one byte alone is below 256.
pub terminal_input_read_key-IsSequence :
    (answers : Answers)
    → AreBytes answers
    → ((terminal_input_read_key answers ≡ some input_up) ↔ IsSequence answers b'A')
      × ((terminal_input_read_key answers ≡ some input_down) ↔ IsSequence answers b'B')
unfolding terminal_input_read_key read_sequence read_third byte_of
terminal_input_read_key-IsSequence answers bytes =
    let small = byte_of-lt answers bytes in
    (
      (
        λ h. record {
          first_ready = ground (arith, small);
          first = ground (arith, small);
          second_ready = ground (arith, small);
          second = ground (arith, small);
          third_ready = ground (arith, small);
          third = ground (arith, small);
        },
        λ s.
            ground
              (arith, s.first_ready, s.first, s.second_ready, s.second, s.third_ready, s.third),
      ),
      (
        λ h. record {
          first_ready = ground (arith, small);
          first = ground (arith, small);
          second_ready = ground (arith, small);
          second = ground (arith, small);
          third_ready = ground (arith, small);
          third = ground (arith, small);
        },
        λ s.
            ground
              (arith, s.first_ready, s.first, s.second_ready, s.second, s.third_ready, s.third),
      ),
    )

-- terminal_input_read_key fails exactly when the first poll does.
pub terminal_input_read_key-eq-none_iff :
    (answers : Answers)
    → (terminal_input_read_key answers ≡ none) ↔ (answers.first_wait ≡ poll_error)
unfolding terminal_input_read_key
terminal_input_read_key-eq-none_iff answers = (ground arith, ground arith)
