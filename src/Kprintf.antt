-- ===== src/Kprintf.antt =====
-- src/kprintf.c: numbers and formatted text on the terminal.
pub mod Numbers
pub mod Pieces
mod Tests
use my_misu_os.Base.{
  ℕ, zero, suc, ◌+◌, ◌-◌, ◌*◌, ◌/◌, ◌%◌, ◌^◌, ◌≤◌, ◌<◌, bit_and, bit_or, bit_xor, min, ◌≡◌, refl,
  sym, ap, ap₂, subst, ◌∙◌, ◌≢◌, ◌↔◌, ◌⊎◌, inl, inr, Bool, true, false, not, ◌&&◌, ◌||◌, Option,
  none, some, List, [], ◌∷◌, ◌++◌, map, arith, ltb, leb, ◌==◌, if◌then◌else◌, ltb→lt, lt→ltb,
  leb→le, ==_iff, ==_self, Bool-cases, Option-cases, all_below, all_below_sound, length, get_or,
  set, take, drop, replicate, at_offset, length-set, get_or-set, set-set, get_or_default,
  length-append, length-take, length-drop, length-replicate, get_or-replicate, take_of_le,
  length-at_offset, drop-at_offset, get_or-at_offset_lt, ℤ, pos, negsuc, pos_part, neg_part, neg,
  sub_ℕ, ◌+ℤ◌, is_neg, ltb_ℤ, eq_ℤ, eq_ℤ_iff, signed32, pattern32, find_from, count_if, IsFirst,
  find_from-some, find_from-none, codes, set_default, get_or-set_all, get_or-replicate_all,
  get_or-set_self, get_or-set_ne, some-eq, set_same, if_all,
}
use my_misu_os.Keyboard.{Keyboard}
use my_misu_os.Vga.{Terminal, put_all}

-- C's `/` and `%` of an `int` by a constant, which round towards zero.
unfoldable pub quotient : ℤ → ℕ → ℤ
quotient (pos n) d = pos (n / d)
quotient (negsuc n) d = neg ((n + 1) / d)

unfoldable pub remainder : ℤ → ℕ → ℤ
remainder (pos n) d = pos (n % d)
remainder (negsuc n) d = neg ((n + 1) % d)

-- -value, which wraps.
unfoldable pub negate32 : ℤ → ℤ
negate32 v = signed32 ((2 ^ 32 - pattern32 v) % 2 ^ 32)

-- The character '0' + value.
unfoldable pub digit_char : ℤ → ℕ
digit_char v = pattern32 (pos b'0' +ℤ v) % 2 ^ 8

-- The characters that `print_int` puts on the terminal in turn, with the depth of its recursion as fuel.
unfoldable pub int_digits : ℕ → ℤ → List ℕ
int_digits zero v = []
int_digits (suc fuel) v =
    let value = if is_neg v then negate32 v else v in
    let rest = int_digits fuel (quotient value 10) in
    (if is_neg v then b'-' ∷ [] else [])
    ++ (if eq_ℤ (quotient value 10) (pos 0) then [] else rest)
    ++ digit_char (remainder value 10) ∷ []

unfoldable pub uint_digits : ℕ → ℕ → List ℕ
uint_digits zero v = []
uint_digits (suc fuel) v =
    let rest = uint_digits fuel (v / 10) in
    (if v / 10 == 0 then [] else rest) ++ (b'0' + v % 10) ∷ []

abbrev pub hex_chars : List ℕ
hex_chars = codes "0123456789abcdef"

unfoldable pub hex_digits : ℕ → ℕ → List ℕ
hex_digits zero v = []
hex_digits (suc fuel) v =
    let rest = hex_digits fuel (v / 16) in
    (if v / 16 == 0 then [] else rest) ++ get_or hex_chars (v % 16) 0 ∷ []

-- 32 bits have at most 10 decimal digits, and a recursion of 11 calls is enough for any.
abbrev pub most_digits : ℕ
most_digits = 11

unfoldable pub print_int : ℤ → List ℕ
print_int v = int_digits most_digits v

unfoldable pub print_uint : ℕ → List ℕ
print_uint v = uint_digits most_digits v

unfoldable pub print_hex : ℕ → List ℕ
print_hex v = hex_digits most_digits v

-- The text that an argument of `%s` points to.
unfoldable pub string_of : (ℕ → List ℕ) → ℕ → List ℕ
string_of text_at w = if w == 0 then codes "(null)" else text_at w

-- What the letter behind a '%' prints for the next word of the arguments, and whether it takes the word.
unfoldable pub convert : (ℕ → List ℕ) → ℕ → ℕ → List ℕ × Bool
convert text_at w c =
    if c == b's'
    then (string_of text_at w, true)
    else if c == b'd'
    then (print_int (signed32 w), true)
    else if c == b'u'
    then (print_uint w, true)
    else if c == b'x'
    then (print_hex w, true)
    else if c == b'c'
    then (w % 2 ^ 8 ∷ [], true)
    else if c == b'%'
    then (b'%' ∷ [], false)
    else (b'%' ∷ c ∷ [], false)

-- The loop over the format up to its terminator, a 0 or the end of the list. `args` has the words of the
-- arguments, of which `next` have been taken; `text_at` is the text at an address.
unfoldable pub format : (ℕ → List ℕ) → (ℕ → ℕ) → ℕ → List ℕ → List ℕ
format text_at args next [] = []
format text_at args next (c ∷ []) = if c == 0 then [] else c ∷ []
format text_at args next (c ∷ d ∷ fmt) = elim (c == 0) [
  | true ↦ []
  | false ↦ elim (c == b'%' && not (d == 0)) [
    | true ↦
        let (out, takes) = convert text_at (args next) d in
        out ++ format text_at args (if takes then next + 1 else next) fmt
    | false ↦ c ∷ format text_at args next (d ∷ fmt)
  ]
]

unfoldable pub kprintf :
    (ℕ → List ℕ) → Terminal → Keyboard → List ℕ → (ℕ → ℕ) → Option (Terminal × Keyboard)
kprintf text_at t k fmt args = put_all t k (format text_at args 0 fmt)
