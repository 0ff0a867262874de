-- ===== src/Keyboard/Examples.antt =====
-- The ring of src/keyboard/keyboard.c and the keys of src/keyboard/qwerty.c.
use ras_os.Keyboard.{KeyboardBuffer, pop_char, push_char, qwerty_keyboard_scancode_to_char}
use ras_os.Keyboard.Ring.{Holds, pop_char-Holds, push_char-Holds}
use ras_os.Base.{
  ℕ, ◌%◌, ◌+◌, get_or-replicate, replicate, ◌≡◌, ◌∷◌, length-replicate, arith, [], refl, some,
}

abbrev scan : ℕ
scan = 82

abbrev fresh : KeyboardBuffer
fresh = record { buffer = replicate 1024 0; tail = 0; head = 0 }

key_q : qwerty_keyboard_scancode_to_char 0x10 ≡ some b'Q'
unfolding qwerty_keyboard_scancode_to_char
key_q = refl

fresh-Holds : Holds fresh []
fresh-Holds = record {
  sized = length-replicate {A = ℕ} 1024 0;
  head_in = omega arith;
  short = omega arith;
  tail_at = refl;
  chars = λ i h. absurd (omega arith);
  zeros = λ i lo hi. get_or-replicate 1024 ((0 + i) % 1024) 0;
}

push_char-Holds_example : Holds (push_char fresh b'a') (b'a' ∷ [])
push_char-Holds_example = push_char-Holds fresh [] b'a' fresh-Holds (omega arith)

pop_char-Holds_example :
    ((pop_char (push_char fresh b'a')).0 ≡ b'a') × Holds (pop_char (push_char fresh b'a')).1 []
pop_char-Holds_example =
    pop_char-Holds (push_char fresh b'a') b'a' []
      (push_char-Holds fresh [] b'a' fresh-Holds (omega arith))
