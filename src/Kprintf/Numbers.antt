-- ===== src/Kprintf/Numbers.antt =====
-- The digits that src/kprintf.c prints, read back.
use my_misu_os.Base.{append_nil}
use my_misu_os.Base.{snoc_append}
use my_misu_os.Base.{
  ℕ, zero, suc, ◌+◌, ◌-◌, ◌*◌, ◌/◌, ◌%◌, ◌^◌, ◌<◌, ◌≡◌, refl, sym, ap, ◌∙◌, inl, inr, Bool, true,
  false, not, ◌&&◌, List, [], ◌∷◌, ◌++◌, arith, leb, ◌==◌, if◌then◌else◌, Bool-cases, all_below,
  all_below_sound, get_or, ℤ, pos, negsuc, pos_part, neg_part, signed32,
}
use my_misu_os.CStrings.{atoi, atoi_sign, atoi_digits}
use my_misu_os.Kprintf.{
  quotient, remainder, negate32, digit_char, int_digits, uint_digits, hex_digits, hex_chars,
  most_digits, print_int, print_uint, print_hex,
}

-- The numbers of at most `fuel` digits are those below it.
unfoldable pub below : ℕ → ℕ → ℕ
below base zero = 1
below base (suc fuel) = base * below base fuel

-- The character is not a digit.
unfoldable pub ends_number : List ℕ → Bool
ends_number [] = true
ends_number (c ∷ cs) = not (leb b'0' c && leb c b'9')

digits_first :
    (r n : ℕ) (tail : List ℕ)
    → n < 10
    → (r * 10 + n) < 2 ^ 32
    → atoi_digits r ((b'0' + n) ∷ tail) ≡ atoi_digits (r * 10 + n) tail
unfolding atoi_digits
digits_first r n tail lt fits =
    let digit : (leb b'0' (b'0' + n) && leb (b'0' + n) b'9') ≡ true = ground arith in
    let value : (r * 10 + (b'0' + n - b'0')) % 2 ^ 32 ≡ r * 10 + n = omega arith in
    rw (digit, value) refl

atoi_digits-uint_digits :
    (fuel n : ℕ) (tail : List ℕ)
    → n < below 10 fuel
    → n < 2 ^ 32
    → atoi_digits 0 (uint_digits fuel n ++ tail) ≡ atoi_digits n tail
unfolding uint_digits below
atoi_digits-uint_digits zero n tail lt fits = ap (λ m. atoi_digits m tail) (omega arith)
atoi_digits-uint_digits (suc fuel) n tail lt fits =
    let d = n % 10 in
    let whole : n / 10 * 10 + d ≡ n = omega arith in
    elim (Bool-cases (n / 10 == 0)) [
      | inl short ↦
          let small : 0 * 10 + d ≡ n = ground arith in
          rw (uint_digits, short)
            (digits_first 0 d tail (omega arith) (omega arith) ∙ ap (λ m. atoi_digits m tail) small)
      | inr long ↦
          rw (uint_digits, long)
            (ap (atoi_digits 0) (snoc_append (uint_digits fuel (n / 10)) (b'0' + d) tail)
              ∙ atoi_digits-uint_digits fuel (n / 10) ((b'0' + d) ∷ tail) (omega (arith, lt))
                  (omega arith)
              ∙ digits_first (n / 10) d tail (omega arith) (omega arith)
              ∙ ap (λ m. atoi_digits m tail) whole)
    ]

-- What stands behind a number in the buffer does not continue it.
atoi_digits-end : (n : ℕ) (tail : List ℕ) → ends_number tail ≡ true → atoi_digits n tail ≡ n
unfolding atoi_digits ends_number
atoi_digits-end n [] e = refl
atoi_digits-end n (c ∷ cs) e = ground (arith, e)

digit_char-pos : (d : ℕ) → d < 10 → digit_char (pos d) ≡ b'0' + d
unfolding digit_char
digit_char-pos d lt = ground arith

int_digits-pos : (fuel n : ℕ) → int_digits fuel (pos n) ≡ uint_digits fuel n
unfolding int_digits uint_digits quotient remainder
int_digits-pos zero n = refl
int_digits-pos (suc fuel) n = rw (int_digits-pos fuel (n / 10)) (
    ap (λ c. (if n / 10 == 0 then [] else uint_digits fuel (n / 10)) ++ c ∷ [])
      (digit_char-pos (n % 10) (omega arith)))

negate32-negsuc : (m : ℕ) → m + 1 < 2 ^ 31 → negate32 (negsuc m) ≡ pos (m + 1)
unfolding negate32
negate32-negsuc m lt = ground arith

int_digits-neg :
    (fuel m : ℕ)
    → m + 1 < 2 ^ 31
    → int_digits (suc fuel) (negsuc m) ≡ b'-' ∷ uint_digits (suc fuel) (m + 1)
unfolding int_digits
int_digits-neg fuel m lt =
    rw (int_digits, negate32-negsuc m lt) (ap (λ l. b'-' ∷ l) (int_digits-pos (suc fuel) (m + 1)))

-- A number begins with a digit.
first_digit :
    (fuel n : ℕ)
    → n < below 10 (suc fuel)
    → (d : ℕ) × (rest : List ℕ) × (uint_digits (suc fuel) n ≡ (b'0' + d) ∷ rest) × (d < 10)
unfolding uint_digits below
first_digit zero n lt =
    let short : (n / 10 == 0) ≡ true = ground (arith, lt) in
    (n % 10, [], rw (uint_digits, short) refl, omega arith)
first_digit (suc fuel) n lt = elim (Bool-cases (n / 10 == 0)) [
  | inl short ↦ (n % 10, [], rw (uint_digits, short) refl, omega arith)
  | inr long ↦
      let (d, rest, e, l) = first_digit fuel (n / 10) (omega (arith, lt)) in
      (
        d,
        rest ++ (b'0' + n % 10) ∷ [],
        rw (uint_digits, long) (ap (λ l. l ++ (b'0' + n % 10) ∷ []) e),
        l,
      )
]

atoi-digit :
    (d : ℕ) (rest : List ℕ)
    → d < 10
    → atoi ((b'0' + d) ∷ rest) ≡ signed32 (atoi_digits 0 ((b'0' + d) ∷ rest))
unfolding atoi atoi_sign
atoi-digit d rest lt =
    let blank : (b'0' + d == b' ') ≡ false = ground arith in
    let minus : (b'0' + d == b'-') ≡ false = ground arith in
    let plus : (b'0' + d == b'+') ≡ false = ground arith in rw (blank, minus, plus) refl

atoi-minus :
    (rest : List ℕ) → atoi (b'-' ∷ rest) ≡ signed32 ((2 ^ 32 - atoi_digits 0 rest) % 2 ^ 32)
unfolding atoi atoi_sign
atoi-minus rest = refl

-- `most_digits` is enough for every 32-bit number.
enough : (n : ℕ) → n < 2 ^ 32 → n < below 10 most_digits
unfolding below
enough n lt = omega arith

atoi-print_pos :
    (n : ℕ) (tail : List ℕ)
    → n < 2 ^ 31
    → ends_number tail ≡ true
    → atoi (print_int (pos n) ++ tail) ≡ pos n
unfolding print_int
atoi-print_pos n tail lt e =
    let (d, rest, first, l) = first_digit 10 n (enough n (omega arith)) in
    let value = atoi_digits-uint_digits most_digits n tail (enough n (omega arith)) (omega arith) in
    let read : atoi_digits 0 ((b'0' + d) ∷ rest ++ tail) ≡ n =
      ap (λ l. atoi_digits 0 (l ++ tail)) (sym first) ∙ value ∙ atoi_digits-end n tail e in
    ap (λ l. atoi (l ++ tail)) (int_digits-pos most_digits n ∙ first)
    ∙ atoi-digit d (rest ++ tail) l
    ∙ ap signed32 read
    ∙ ground arith

atoi-print_neg :
    (m : ℕ) (tail : List ℕ)
    → m + 1 < 2 ^ 31
    → ends_number tail ≡ true
    → atoi (print_int (negsuc m) ++ tail) ≡ negsuc m
unfolding print_int
atoi-print_neg m tail lt e =
    let value =
      atoi_digits-uint_digits most_digits (m + 1) tail (enough (m + 1) (omega arith)) (omega arith)
      ∙ atoi_digits-end (m + 1) tail e in
    ap (λ l. atoi (l ++ tail)) (int_digits-neg 10 m lt)
    ∙ atoi-minus (uint_digits most_digits (m + 1) ++ tail)
    ∙ ap (λ v. signed32 ((2 ^ 32 - v) % 2 ^ 32)) value
    ∙ ground arith

-- `atoi` reads back every `int` that `print_int` prints, but for the least, whatever follows it that is
-- not a digit.
pub atoi-print_int :
    (v : ℤ) (tail : List ℕ)
    → pos_part v < 2 ^ 31
    → neg_part v < 2 ^ 31
    → ends_number tail ≡ true
    → atoi (print_int v ++ tail) ≡ v
atoi-print_int (pos n) tail lt lt' e = atoi-print_pos n tail lt e
atoi-print_int (negsuc m) tail lt lt' e = atoi-print_neg m tail (omega arith) e

-- The value of a character of `hex_chars`, and of several behind `value`.
unfoldable pub hex_digit : ℕ → ℕ
hex_digit c = if leb c b'9' then c - b'0' else c - b'a' + 10

unfoldable pub hex_value : ℕ → List ℕ → ℕ
hex_value value [] = value
hex_value value (c ∷ cs) = hex_value (value * 16 + hex_digit c) cs

hex_digit-hex_chars : (d : ℕ) → d < 16 → hex_digit (get_or hex_chars d 0) ≡ d
unfolding hex_digit all_below
hex_digit-hex_chars d lt =
    let same = all_below_sound 16 (λ d. hex_digit (get_or hex_chars d 0) == d) d refl lt in
    ground (arith, same)

hex_value-hex_digits :
    (fuel n : ℕ) (tail : List ℕ)
    → n < below 16 fuel
    → hex_value 0 (hex_digits fuel n ++ tail) ≡ hex_value n tail
unfolding hex_digits below hex_value
hex_value-hex_digits zero n tail lt = ap (λ m. hex_value m tail) (omega arith)
hex_value-hex_digits (suc fuel) n tail lt =
    let d = n % 16 in
    let digit = hex_digit-hex_chars d (omega arith) in
    elim (Bool-cases (n / 16 == 0)) [
      | inl short ↦
          rw (hex_digits, short, hex_value, digit) (ap (λ m. hex_value m tail) (ground arith))
      | inr long ↦
          rw (hex_digits, long)
            (ap (hex_value 0) (snoc_append (hex_digits fuel (n / 16)) (get_or hex_chars d 0) tail)
              ∙ hex_value-hex_digits fuel (n / 16) (get_or hex_chars d 0 ∷ tail) (omega (arith, lt))
              ∙ ap (λ m. hex_value m tail) (omega (arith, digit)))
    ]

enough16 : (n : ℕ) → n < 2 ^ 32 → n < below 16 most_digits
unfolding below
enough16 n lt = omega arith

-- Read as digits to the bases 10 and 16, what `print_uint` and `print_hex` print of a 32-bit number is
-- that number.
pub print_uint-print_hex :
    (n : ℕ) → n < 2 ^ 32 → (atoi_digits 0 (print_uint n) ≡ n) × (hex_value 0 (print_hex n) ≡ n)
unfolding print_uint print_hex atoi_digits hex_value
print_uint-print_hex n lt =
    let back = atoi_digits-uint_digits most_digits n [] (enough n lt) lt in
    let back' = hex_value-hex_digits most_digits n [] (enough16 n lt) in
    (
      ap (atoi_digits 0) (sym (append_nil (uint_digits most_digits n))) ∙ back,
      ap (hex_value 0) (sym (append_nil (hex_digits most_digits n))) ∙ back',
    )
