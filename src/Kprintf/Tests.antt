-- ===== src/Kprintf/Tests.antt =====
-- Numbers and formats of src/kprintf.c.
use my_misu_os.Base.{◌+◌}
use my_misu_os.Base.{codes, neg, ◌≡◌, refl}
use my_misu_os.Kprintf.{
  print_int, print_uint, print_hex, format, int_digits, uint_digits, hex_digits, quotient,
  remainder, negate32, digit_char, convert, string_of,
}
use my_misu_os.Base.{◌+◌, ◌≡◌, refl, true, List, [], ◌∷◌, ◌++◌, arith, negsuc, neg, codes}
use my_misu_os.CStrings.{atoi}
use my_misu_os.Vga.{put_all}
use my_misu_os.Vga.Tests.{at_boot, no_keys}
use my_misu_os.Kprintf.{kprintf}
use my_misu_os.Kprintf.Numbers.{atoi-print_int, ends_number}
use my_misu_os.Kprintf.Pieces.{Piece, plain_only, render, expand, kprintf-render}

-- The least `int` has no negative.
print_int_min : print_int (neg 2147483648) ≡ codes "--214748364("
unfolding print_int int_digits quotient remainder negate32 digit_char
print_int_min = refl

sample :
    format (λ a. codes "pid") (λ i. i + 41) 0 (codes "%s %d %u %x %%%q%")
    ≡ codes "pid 42 43 2c %%q%"
unfolding format convert print_int int_digits quotient remainder negate32 digit_char print_uint
    uint_digits print_hex hex_digits string_of
sample = refl

colon : ends_number (b':' ∷ []) ≡ true
unfolding ends_number
colon = refl

atoi-print_int_example : atoi (print_int (negsuc 4095) ++ b':' ∷ []) ≡ negsuc 4095
atoi-print_int_example = atoi-print_int (negsuc 4095) (b':' ∷ []) (omega arith) (omega arith) colon

-- "%d%%\n"
abbrev share : List Piece
share = Piece.int ∷ Piece.percent ∷ Piece.plain 10 ∷ []

share_plain : plain_only share ≡ true
unfolding plain_only
share_plain = refl

kprintf-render_example :
    kprintf (λ a. []) at_boot no_keys (render share) (λ i. 75)
    ≡ put_all at_boot no_keys (expand (λ a. []) (λ i. 75) 0 share)
kprintf-render_example = kprintf-render (λ a. []) (λ i. 75) at_boot no_keys share share_plain
