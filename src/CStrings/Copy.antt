-- ===== src/CStrings/Copy.antt =====
-- What the copy loops of src/string.c leave in the destination.
use my_misu_os.Base.{
  ℕ, zero, suc, ◌+◌, ◌≤◌, ◌<◌, ◌≡◌, refl, ap, List, [], ◌∷◌, ◌++◌, arith, length, take, drop, set,
}
use my_misu_os.CStrings.{strlen, strncpy, strcpy, strcat, memset, memcpy}
use my_misu_os.CStrings.Laws.{text}

pub length-memset : (ps : List ℕ) (v n : ℕ) → length (memset ps v n) ≡ length ps
unfolding memset
length-memset ps v zero = refl
length-memset [] v (suc n) = refl
length-memset (p ∷ ps) v (suc n) = ap suc (length-memset ps v n)

pub length-memcpy : (d s : List ℕ) (n : ℕ) → length (memcpy d s n) ≡ length d
unfolding memcpy
length-memcpy d s zero = refl
length-memcpy [] s (suc n) = refl
length-memcpy (d ∷ ds) [] (suc n) = refl
length-memcpy (d ∷ ds) (s ∷ ss) (suc n) = ap suc (length-memcpy ds ss n)

pub length-strncpy : (d s : List ℕ) (n : ℕ) → length (strncpy d s n) ≡ length d
unfolding strncpy
length-strncpy d s zero = refl
length-strncpy [] s (suc n) = refl
length-strncpy (d ∷ ds) [] (suc n) = length-memset (d ∷ ds) 0 (suc n)
length-strncpy (d ∷ ds) (c ∷ cs) (suc n) =
    ground (arith, length-strncpy ds cs n, length-memset ds 0 n)

pub length-strcpy : (d s : List ℕ) → length (strcpy d s) ≡ length d
unfolding strcpy
length-strcpy [] s = refl
length-strcpy (d ∷ ds) [] = refl
length-strcpy (d ∷ ds) (c ∷ cs) = ground (arith, length-strcpy ds cs)

-- `memcpy` within both buffers copies exactly `n` bytes and keeps the rest of the destination.
pub memcpy-eq_append :
    (d s : List ℕ) (n : ℕ) → n ≤ length d → n ≤ length s → memcpy d s n ≡ take n s ++ drop n d
unfolding memcpy
memcpy-eq_append d s zero h k = refl
memcpy-eq_append [] s (suc n) h k = absurd (omega arith)
memcpy-eq_append (d ∷ ds) [] (suc n) h k = absurd (omega arith)
memcpy-eq_append (d ∷ ds) (s ∷ ss) (suc n) h k =
    ap (λ ys. s ∷ ys) (memcpy-eq_append ds ss n (omega arith) (omega arith))

pub take-memcpy :
    (d s : List ℕ) (n : ℕ) → n ≤ length d → n ≤ length s → take n (memcpy d s n) ≡ take n s
unfolding memcpy
take-memcpy d s zero h k = refl
take-memcpy [] s (suc n) h k = absurd (omega arith)
take-memcpy (d ∷ ds) [] (suc n) h k = absurd (omega arith)
take-memcpy (d ∷ ds) (s ∷ ss) (suc n) h k =
    ap (λ ys. s ∷ ys) (take-memcpy ds ss n (omega arith) (omega arith))

text-memset_zero : (d : List ℕ) (n : ℕ) → 0 < n → text (memset d 0 n) ≡ []
unfolding text memset
text-memset_zero d zero h = absurd (omega arith)
text-memset_zero [] (suc n) h = refl
text-memset_zero (d ∷ ds) (suc n) h = refl

-- `strncpy(dest, src, n); dest[n] = 0` keeps a text that is at most `n` bytes long.
pub text-set-strncpy :
    (d s : List ℕ) (n : ℕ) → n < length d → strlen s ≤ n → text (set (strncpy d s n) n 0) ≡ text s
unfolding strncpy text strlen memset
text-set-strncpy [] s n h k = absurd (omega arith)
text-set-strncpy (d ∷ ds) [] zero h k = refl
text-set-strncpy (d ∷ ds) (c ∷ cs) zero h k = ground arith
text-set-strncpy (d ∷ ds) [] (suc n) h k = refl
text-set-strncpy (d ∷ ds) (c ∷ cs) (suc n) h k = ground (arith, text-set-strncpy ds cs n)

-- A string and its terminator fit: the buffer then holds its text.
pub text-strcpy : (d s : List ℕ) → strlen s < length d → text (strcpy d s) ≡ text s
unfolding strcpy text strlen
text-strcpy [] s h = absurd (omega arith)
text-strcpy (d ∷ ds) [] h = refl
text-strcpy (d ∷ ds) (c ∷ cs) h = ground (arith, text-strcpy ds cs)

-- `strcat` appends the second text to the first, if both and a terminator fit the buffer.
pub text-strcat :
    (d s : List ℕ) → strlen d + strlen s < length d → text (strcat d s) ≡ text d ++ text s
unfolding strcat text strlen
text-strcat [] s h = absurd (omega arith)
text-strcat (d ∷ ds) s h = ground (arith, text-strcpy (d ∷ ds) s, text-strcat ds s)
