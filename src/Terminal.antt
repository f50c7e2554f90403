-- ===== src/Terminal.antt =====
-- src/terminal_input.c: how terminal_input_read_key turns the bytes of the terminal into a key. What
-- poll(2) and read(2) answer is its input.
use rookietop.Common.{ℕ, Bool, ◌||◌, not, Option, none, some, ◌==◌, if◌then◌else◌}
use rookietop.App.State.{input_up, input_down, input_enter, input_escape}
pub mod Keys
pub mod Session

-- What poll answers: some input, no input in time (or EINTR), or an error.
pub data Wait : Type 0 where
  ready timeout poll_error : Wait

-- What read of one byte answers; a read that gives none or fails is `none`.
abbrev pub ReadByte : Type 0
ReadByte = Option ℕ

-- The answers to the calls of wait_input and read_byte, in turn.
pub record Answers : Type 0 where
  pub first_wait : Wait
  pub first_byte : ReadByte
  pub second_wait : Wait
  pub second_byte : ReadByte
  pub third_wait : Wait
  pub third_byte : ReadByte

abbrev pub input_none : ℕ
input_none = 0

-- The byte of the escape key.
abbrev pub escape_byte : ℕ
escape_byte = 27

-- The third byte of a sequence.
unfoldable pub read_third : Answers → ℕ
read_third answers = elim answers.third_byte [
  | none ↦ input_escape
  | some third ↦
      if third == b'A' then input_up else if third == b'B' then input_down else input_escape
]

-- What follows the escape byte.
unfoldable pub read_sequence : Answers → ℕ
read_sequence answers = elim answers.second_wait [
  | timeout ↦ input_escape
  | poll_error ↦ input_escape
  | ready ↦ elim answers.second_byte [
    | none ↦ input_escape
    | some second ↦ if not (second == b'[') then input_escape else elim answers.third_wait [
      | timeout ↦ input_escape
      | poll_error ↦ input_escape
      | ready ↦ read_third answers
    ]
  ]
]

-- The key, where `none` is -1.
unfoldable pub terminal_input_read_key : Answers → Option ℕ
terminal_input_read_key answers = elim answers.first_wait [
  | poll_error ↦ none
  | timeout ↦ some input_none
  | ready ↦ elim answers.first_byte [
    | none ↦ some input_none
    | some first ↦
        if first == 13 || first == 10
        then some input_enter
        else if not (first == escape_byte)
        then some first
        else some (read_sequence answers)
  ]
]
