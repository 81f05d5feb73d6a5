-- ===== src/Keyboard/Letters.antt =====
-- Letters typed on the keyboard of src/keyboard.c.
use my_misu_os.Base.{
  ℕ, ◌+◌, ◌-◌, ◌<◌, ◌≡◌, refl, inl, inr, Bool, true, false, not, ◌&&◌, ◌||◌, arith, leb, ◌==◌,
  if◌then◌else◌, Bool-cases, all_below, all_below_sound,
}
use mathlib.Core.Bool.{xor}
use my_misu_os.Keyboard.{
  Keyboard, scancode_normal, scancode_shift, kb_push, key_char, keyboard_callback,
}

-- The keys whose plain character is a letter.
unfoldable pub is_letter_key : ℕ → Bool
is_letter_key sc = leb b'a' (scancode_normal sc) && leb (scancode_normal sc) b'z'

letter_law : ℕ → Bool
letter_law sc =
    if is_letter_key sc
    then scancode_shift sc + 32 == scancode_normal sc
      && not (sc == 0x2a || sc == 0x36 || sc == 0x3a || sc == 0x01)
    else true

letter_table : all_below 128 letter_law ≡ true
unfolding all_below letter_law is_letter_key scancode_normal scancode_shift
letter_table = refl

callback_lem :
    (k : Keyboard) (sc : ℕ)
    → sc < 128
    → is_letter_key sc ≡ true
    → k.extended ≡ false
    → (scancode_shift sc + 32 == scancode_normal sc
        && not (sc == 0x2a || sc == 0x36 || sc == 0x3a || sc == 0x01))
      ≡ true
    → keyboard_callback k sc
      ≡ kb_push k
          (if xor k.shift_pressed k.caps_lock then scancode_normal sc - 32 else scancode_normal sc)
unfolding keyboard_callback key_char is_letter_key xor
callback_lem k sc h l e t = elim (Bool-cases k.shift_pressed) [
  | inl s ↦ elim (Bool-cases k.caps_lock) [ inl c ↦ ground arith | inr c ↦ ground arith ]
  | inr s ↦ elim (Bool-cases k.caps_lock) [ inl c ↦ ground arith | inr c ↦ ground arith ]
]

-- Pressing a letter key, not behind 0xE0, types its upper case if exactly one of shift and caps lock is on, and its lower
-- case otherwise.
pub keyboard_callback-letter :
    (k : Keyboard) (sc : ℕ)
    → sc < 128
    → is_letter_key sc ≡ true
    → k.extended ≡ false
    → keyboard_callback k sc
      ≡ kb_push k
          (if xor k.shift_pressed k.caps_lock then scancode_normal sc - 32 else scancode_normal sc)
unfolding letter_law
keyboard_callback-letter k sc h l e =
    let table : letter_law sc ≡ true = all_below_sound 128 letter_law sc letter_table h in
    callback_lem k sc h l e (ground arith)
