-- ===== src/CStrings/Laws.antt =====
-- Lengths and comparisons of src/string.c against the text of a C string.
use my_misu_os.Base.{ℕ, ◌≤◌, ◌≡◌, refl, ◌↔◌, List, [], ◌∷◌, ◌==◌, if◌then◌else◌, pos, arith, length}
use my_misu_os.CStrings.{strlen, strcmp}

-- The text that a buffer holds: its bytes before the first 0.
unfoldable pub text : List ℕ → List ℕ
text [] = []
text (c ∷ cs) = if c == 0 then [] else c ∷ text cs

pub length-text : (s : List ℕ) → length (text s) ≡ strlen s
unfolding text strlen
length-text [] = refl
length-text (c ∷ cs) = ground (arith, length-text cs)

pub strlen-le_length : (s : List ℕ) → strlen s ≤ length s
unfolding strlen
strlen-le_length [] = omega arith
strlen-le_length (c ∷ cs) = ground (arith, strlen-le_length cs)

pub strcmp-eq_zero : (a b : List ℕ) → strcmp a b ≡ pos 0 → text a ≡ text b
unfolding strcmp text
strcmp-eq_zero [] [] h = refl
strcmp-eq_zero [] (y ∷ ys) h = ground arith
strcmp-eq_zero (x ∷ xs) [] h = ground arith
strcmp-eq_zero (x ∷ xs) (y ∷ ys) h = ground (arith, strcmp-eq_zero xs ys)

pub strcmp_of_eq : (a b : List ℕ) → text a ≡ text b → strcmp a b ≡ pos 0
unfolding strcmp text
strcmp_of_eq [] [] h = refl
strcmp_of_eq [] (y ∷ ys) h = ground arith
strcmp_of_eq (x ∷ xs) [] h = ground arith
strcmp_of_eq (x ∷ xs) (y ∷ ys) h = ground (arith, strcmp_of_eq xs ys)

-- `strcmp` returns 0 exactly when the two buffers hold the same text.
pub strcmp_iff : (a b : List ℕ) → (strcmp a b ≡ pos 0) ↔ (text a ≡ text b)
strcmp_iff a b = (strcmp-eq_zero a b, strcmp_of_eq a b)
