-- ===== src/Examples/Keys.antt =====
-- The bytes of an arrow key.
use rookietop.Common.{◌≡◌, ◌↔◌, some, arith}
use rookietop.App.State.{input_up, input_down}
use rookietop.Terminal.{Wait, Answers, terminal_input_read_key}
use rookietop.Terminal.Keys.{AreBytes, IsSequence, terminal_input_read_key-IsSequence}

abbrev arrow_up : Answers
arrow_up = record {
  first_wait = Wait.ready;
  first_byte = some 27;
  second_wait = Wait.ready;
  second_byte = some b'[';
  third_wait = Wait.ready;
  third_byte = some b'A';
}

arrow_up-AreBytes : AreBytes arrow_up
arrow_up-AreBytes = record { first = λ b h. ground (arith, h) }

terminal_input_read_key-IsSequence_example :
    ((terminal_input_read_key arrow_up ≡ some input_up) ↔ IsSequence arrow_up b'A')
    × ((terminal_input_read_key arrow_up ≡ some input_down) ↔ IsSequence arrow_up b'B')
terminal_input_read_key-IsSequence_example =
    terminal_input_read_key-IsSequence arrow_up arrow_up-AreBytes
