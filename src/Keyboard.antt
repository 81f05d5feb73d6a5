-- ===== src/Keyboard.antt =====
-- src/keyboard.c: the translation of scancodes and the ring of typed characters.
mod Tests
pub mod Ring
pub mod Letters
use my_misu_os.Base.{
  ℕ, ◌+◌, ◌-◌, ◌*◌, ◌/◌, ◌%◌, ◌^◌, ◌<◌, Bool, true, false, not, ◌&&◌, ◌||◌, Option, none, some,
  List, [], ◌∷◌, ◌++◌, leb, ◌==◌, if◌then◌else◌, get_or, set, codes,
}

abbrev pub kb_buffer_size : ℕ
kb_buffer_size = 256

-- The static variables of keyboard.c, that of `keyboard_callback` included.
pub record Keyboard : Type 0 where
  pub kb_buffer : List ℕ
  pub kb_read : ℕ
  pub kb_write : ℕ
  pub shift_pressed : Bool
  pub caps_lock : Bool
  pub extended : Bool

abbrev pub key_up : ℕ
key_up = 1

abbrev pub key_down : ℕ
key_down = 2

abbrev pub key_left : ℕ
key_left = 3

abbrev pub key_right : ℕ
key_right = 4

abbrev pub key_esc : ℕ
key_esc = 0x1b

-- The initialised entries of the two tables; those behind them are 0.
unfoldable pub normal_keys : List ℕ
normal_keys =
    0 ∷ 27 ∷ codes "1234567890-="
    ++ 8 ∷ 9 ∷ codes "qwertyuiop[]"
    ++ 10 ∷ 0 ∷ codes "asdfghjkl;'`"
    ++ 0 ∷ 92 ∷ codes "zxcvbnm,./"
    ++ 0 ∷ b'*' ∷ 0 ∷ b' ' ∷ []

unfoldable pub shift_keys : List ℕ
shift_keys =
    0 ∷ 27 ∷ codes "!@#$%^&*()_+"
    ++ 8 ∷ 9 ∷ codes "QWERTYUIOP{}"
    ++ 10 ∷ 0 ∷ codes "ASDFGHJKL:"
    ++ 34 ∷ b'~' ∷ 0 ∷ codes "|ZXCVBNM<>?"
    ++ 0 ∷ b'*' ∷ 0 ∷ b' ' ∷ []

unfoldable pub scancode_normal : ℕ → ℕ
unfolding normal_keys
scancode_normal i = get_or normal_keys i 0

unfoldable pub scancode_shift : ℕ → ℕ
unfolding shift_keys
scancode_shift i = get_or shift_keys i 0

unfoldable pub kb_push : Keyboard → ℕ → Keyboard
kb_push k c =
    let next = (k.kb_write + 1) % kb_buffer_size in
    if not (next == k.kb_read)
    then record k { kb_buffer = set k.kb_buffer k.kb_write c; kb_write = next }
    else k

-- The branch for a scancode behind 0xE0; the release of a key, from 0x80 on, is ignored.
unfoldable pub extended_key : Keyboard → ℕ → Keyboard
extended_key k scancode =
    if leb 0x80 scancode
    then k
    else if scancode == 0x48
    then kb_push k key_up
    else if scancode == 0x50
    then kb_push k key_down
    else if scancode == 0x4b
    then kb_push k key_left
    else if scancode == 0x4d
    then kb_push k key_right
    else k

-- The character of a key, with shift and caps lock; caps lock counts for letters only.
unfoldable pub key_char : Keyboard → ℕ → ℕ
key_char k scancode =
    let c = scancode_normal scancode in
    let use_shift =
      if k.caps_lock && leb b'a' c && leb c b'z' then not k.shift_pressed else k.shift_pressed in
    if use_shift then scancode_shift scancode else c

-- `keyboard_callback`, for the byte `scancode` that `inb(0x60)` has read.
unfoldable pub keyboard_callback : Keyboard → ℕ → Keyboard
keyboard_callback k scancode =
    if scancode == 0xe0
    then record k { extended = true }
    else if k.extended
    then extended_key (record k { extended = false }) scancode
    else if leb 0x80 scancode
    then (let released = scancode - 0x80 in
        if released == 0x2a || released == 0x36 then record k { shift_pressed = false } else k)
    else if scancode == 0x2a || scancode == 0x36
    then record k { shift_pressed = true }
    else if scancode == 0x3a
    then record k { caps_lock = not k.caps_lock }
    else if scancode == 0x01
    then kb_push k key_esc
    else (let c = key_char k scancode in if c == 0 then k else kb_push k c)

unfoldable pub keyboard_haschar : Keyboard → Bool
keyboard_haschar k = not (k.kb_read == k.kb_write)

-- `none` while the loop waits for a character.
unfoldable pub keyboard_getchar : Keyboard → Option (ℕ × Keyboard)
keyboard_getchar k =
    if k.kb_read == k.kb_write
    then none
    else some
        (get_or k.kb_buffer k.kb_read 0, record k { kb_read = (k.kb_read + 1) % kb_buffer_size })
