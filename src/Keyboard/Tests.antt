-- ===== src/Keyboard/Tests.antt =====
-- The keyboard of src/keyboard.c with its buffer empty and with one character.
use my_misu_os.Base.{
  ℕ, ◌-◌, ◌≡◌, refl, true, false, arith, ltb, if◌then◌else◌, length, replicate, length-replicate,
}
use mathlib.Core.Bool.{xor}
use my_misu_os.Keyboard.{
  kb_buffer_size, Keyboard, scancode_normal, kb_push, keyboard_callback, keyboard_haschar,
  keyboard_getchar,
}
use my_misu_os.Keyboard.Ring.{
  IsRing, contents, enqueue, dequeue, seen, kb_push_refines, keyboard_getchar_refines,
}
use my_misu_os.Keyboard.Letters.{is_letter_key, keyboard_callback-letter}

-- The ring stands at its end.
abbrev at_end : Keyboard
at_end = record {
  kb_buffer = replicate kb_buffer_size 0;
  kb_read = 255;
  kb_write = 255;
  shift_pressed = true;
  caps_lock = false;
  extended = false;
}

at_end-IsRing : IsRing at_end
at_end-IsRing = record {
  buffer_len = length-replicate {A = ℕ} kb_buffer_size 0;
  read_lt = omega arith;
  write_lt = omega arith;
}

kb_push_refines_example :
    IsRing (kb_push at_end 97) × (contents (kb_push at_end 97) ≡ enqueue (contents at_end) 97)
kb_push_refines_example = kb_push_refines at_end 97 at_end-IsRing

keyboard_getchar_refines_example :
    (seen (keyboard_getchar (kb_push at_end 97)) ≡ dequeue (contents (kb_push at_end 97)))
    × (keyboard_haschar (kb_push at_end 97) ≡ ltb 0 (length (contents (kb_push at_end 97))))
keyboard_getchar_refines_example =
    keyboard_getchar_refines (kb_push at_end 97) (kb_push_refines at_end 97 at_end-IsRing).0

letter_a : is_letter_key 0x1e ≡ true
unfolding is_letter_key scancode_normal
letter_a = refl

keyboard_callback-letter_example :
    keyboard_callback at_end 0x1e
    ≡ kb_push at_end (
        if xor at_end.shift_pressed at_end.caps_lock
        then scancode_normal 0x1e - 32
        else scancode_normal 0x1e)
keyboard_callback-letter_example = keyboard_callback-letter at_end 0x1e (omega arith) letter_a refl
