-- ===== src/CStrings.antt =====
-- src/string.c, over byte lists. A `const char*` is the list of the bytes from where it points on; a
-- buffer is the list of its bytes. A loop that would leave its list stops there: reading past the end
-- gives 0 bytes, and nothing is written past the end.
pub mod Laws
pub mod Copy
mod Tests
use my_misu_os.Base.{
  ℕ, zero, suc, ◌+◌, ◌-◌, ◌*◌, ◌%◌, ◌^◌, ◌&&◌, not, List, [], ◌∷◌, ◌==◌, leb, if◌then◌else◌, ℤ, pos,
  sub_ℕ, signed32,
}

unfoldable pub strlen : List ℕ → ℕ
strlen [] = 0
strlen (c ∷ cs) = if c == 0 then 0 else suc (strlen cs)

-- `while (*a && *a == *b)`, then the difference of the two bytes.
unfoldable pub strcmp : List ℕ → List ℕ → ℤ
strcmp [] [] = pos 0
strcmp [] (y ∷ ys) = sub_ℕ 0 y
strcmp (x ∷ xs) [] = pos x
strcmp (x ∷ xs) (y ∷ ys) = if not (x == 0) && x == y then strcmp xs ys else sub_ℕ x y

unfoldable pub strncmp : List ℕ → List ℕ → ℕ → ℤ
strncmp xs ys zero = pos 0
strncmp [] [] (suc n) = pos 0
strncmp [] (y ∷ ys) (suc n) = sub_ℕ 0 y
strncmp (x ∷ xs) [] (suc n) = pos x
strncmp (x ∷ xs) (y ∷ ys) (suc n) =
    if not (x == y) then sub_ℕ x y else if x == 0 then pos 0 else strncmp xs ys n

unfoldable pub strcpy : List ℕ → List ℕ → List ℕ
strcpy [] src = []
strcpy (d ∷ ds) [] = 0 ∷ ds
strcpy (d ∷ ds) (c ∷ cs) = c ∷ (if c == 0 then ds else strcpy ds cs)

unfoldable pub memset : List ℕ → ℕ → ℕ → List ℕ
memset ps value zero = ps
memset [] value (suc n) = []
memset (p ∷ ps) value (suc n) = value % 256 ∷ memset ps value n

unfoldable pub strncpy : List ℕ → List ℕ → ℕ → List ℕ
unfolding memset
strncpy dest src zero = dest
strncpy [] src (suc n) = []
strncpy (d ∷ ds) [] (suc n) = memset (d ∷ ds) 0 (suc n)
strncpy (d ∷ ds) (c ∷ cs) (suc n) =
    if c == 0 then memset (d ∷ ds) 0 (suc n) else c ∷ strncpy ds cs n

unfoldable pub strcat : List ℕ → List ℕ → List ℕ
unfolding strcpy
strcat [] src = []
strcat (d ∷ ds) src = if d == 0 then strcpy (d ∷ ds) src else d ∷ strcat ds src

unfoldable pub memcpy : List ℕ → List ℕ → ℕ → List ℕ
memcpy dest src zero = dest
memcpy [] src (suc n) = []
memcpy (d ∷ ds) [] (suc n) = d ∷ ds
memcpy (d ∷ ds) (s ∷ ss) (suc n) = s ∷ memcpy ds ss n

unfoldable pub memcmp : List ℕ → List ℕ → ℕ → ℤ
memcmp pa pb zero = pos 0
memcmp [] [] (suc n) = pos 0
memcmp [] (b ∷ bs) (suc n) = sub_ℕ 0 b
memcmp (a ∷ rest) [] (suc n) = pos a
memcmp (a ∷ rest) (b ∷ bs) (suc n) = if not (a == b) then sub_ℕ a b else memcmp rest bs n

-- The digit loop of `atoi`. `result` is the pattern of the `int`, and its arithmetic wraps.
unfoldable pub atoi_digits : ℕ → List ℕ → ℕ
atoi_digits result [] = result
atoi_digits result (c ∷ cs) =
    let rest = atoi_digits ((result * 10 + (c - b'0')) % 2 ^ 32) cs in
    if leb b'0' c && leb c b'9' then rest else result

-- The sign. `sign * result` wraps too.
unfoldable pub atoi_sign : List ℕ → ℤ
unfolding atoi_digits
atoi_sign [] = pos 0
atoi_sign (c ∷ cs) =
    if c == b'-'
    then signed32 ((2 ^ 32 - atoi_digits 0 cs) % 2 ^ 32)
    else if c == b'+'
    then signed32 (atoi_digits 0 cs)
    else signed32 (atoi_digits 0 (c ∷ cs))

unfoldable pub atoi : List ℕ → ℤ
unfolding atoi_sign
atoi [] = atoi_sign []
atoi (c ∷ cs) = if c == b' ' then atoi cs else atoi_sign (c ∷ cs)
