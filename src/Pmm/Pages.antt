-- ===== src/Pmm/Pages.antt =====
-- The allocator of src/pmm.c, page by page.

use native.Mathlib.Decide.{dec_lt}
use my_misu_os.Base.{
  ℕ, zero, suc, ◌+◌, ◌*◌, ◌/◌, ◌%◌, ◌≤◌, ◌<◌, ◌≡◌, refl, ap, ◌∙◌, inl, inr, true, false, none, some,
  List, [], ◌∷◌, arith, Option-cases, length, get_or, set,
}
use my_misu_os.Pmm.{max_pages, bitmap_size, Pmm, pmm_test_bit, clear_bit_from, free_page_from}
use my_misu_os.Pmm.Bits.{
  ones, ones-le, test_in_full, IsClear, clear_bit_from-none, clear_bit_from-some,
}

-- The set bits of a bitmap.
unfoldable pub count_ones : List ℕ → ℕ
count_ones [] = 0
count_ones (x ∷ xs) = ones x + count_ones xs

-- The bitmap covers every page.
pub record IsBitmap (m : Pmm) : Type 0 where
  pub bitmap_len : length m.bitmap ≡ bitmap_size
  pub bytes : (i : ℕ) → get_or m.bitmap i 255 < 256

-- Besides, `used_pages` is the number of its set bits.
pub record IsValid (m : Pmm) : Type 0 where
  pub shape : IsBitmap m
  pub counted : m.used_pages ≡ count_ones m.bitmap

pub count_ones-set :
    (xs : List ℕ) (i v : ℕ)
    → i < length xs
    → count_ones (set xs i v) + ones (get_or xs i 255) ≡ count_ones xs + ones v
unfolding count_ones
count_ones-set [] i v h = absurd (omega arith)
count_ones-set (x ∷ xs) zero v h = omega arith
count_ones-set (x ∷ xs) (suc i) v h = omega (arith, count_ones-set xs i v (omega arith))

count_ones-le : (xs : List ℕ) → count_ones xs ≤ 8 * length xs
unfolding count_ones
count_ones-le [] = omega arith
count_ones-le (x ∷ xs) = omega (arith, ones-le x, count_ones-le xs)

pub used-le : {m : Pmm} → IsValid m → m.used_pages ≤ max_pages
used-le {m} v = omega (arith, v.counted, v.shape.bitmap_len, count_ones-le m.bitmap)

-- The lowest page that is not in use.
pub record IsLowest (m : Pmm) (page : ℕ) : Type 0 where
  pub page_lt : page < max_pages
  pub clear : pmm_test_bit m page ≡ false
  pub below : (q : ℕ) → q < page → pmm_test_bit m q ≡ true

-- What the two loops of `pmm_alloc_page` find in what is left of the bitmap.
record FoundAt (xs : List ℕ) (i page : ℕ) : Type 0 where
  byte : ℕ
  bit : ℕ
  page_eq : page ≡ (i + byte) * 8 + bit
  byte_in : byte < length xs
  first : IsClear (get_or xs byte 255) bit
  full_before : (j : ℕ) → j < byte → get_or xs j 255 ≡ 255

full_cons :
    (x : ℕ) (xs : List ℕ) (k : ℕ)
    → x ≡ 255
    → ((j : ℕ) → j < k → get_or xs j 255 ≡ 255)
    → (j : ℕ) → j < suc k
    → get_or (x ∷ xs) j 255 ≡ 255
full_cons x xs k e h zero lt = e
full_cons x xs k e h (suc j) lt = h j (omega arith)

free_page_from-some :
    (i : ℕ) (xs : List ℕ) {page : ℕ}
    → ((j : ℕ) → get_or xs j 255 < 256)
    → free_page_from i xs ≡ some page
    → FoundAt xs i page
unfolding free_page_from
free_page_from-some i [] h e = absurd (cc)
free_page_from-some i (x ∷ xs) {page} h e = elim (Option-cases (clear_bit_from 8 0 x)) [
  | inl none_clear ↦
      let full = clear_bit_from-none x (h 0) none_clear in
      let f = free_page_from-some (suc i) xs {page = page} (λ j. h (suc j)) (ground arith) in
      record {
        byte = suc f.byte;
        bit = f.bit;
        page_eq = omega (arith, f.page_eq);
        byte_in = omega (arith, f.byte_in);
        first = f.first;
        full_before = full_cons x xs f.byte full f.full_before;
      }
  | inr (k, found) ↦
      let c = clear_bit_from-some x (h 0) found in
      let ne = c.not_full in
      record {
        byte = 0;
        bit = k;
        page_eq = ground arith;
        byte_in = omega arith;
        first = c;
        full_before = λ j lt. absurd (omega arith);
      }
]

pub free_page_from-none :
    (i : ℕ) (xs : List ℕ) (j : ℕ)
    → ((j : ℕ) → get_or xs j 255 < 256)
    → free_page_from i xs ≡ none
    → get_or xs j 255 ≡ 255
unfolding free_page_from
free_page_from-none i [] j h e = refl
free_page_from-none i (x ∷ xs) zero h e = elim (Option-cases (clear_bit_from 8 0 x)) [
  | inl none_clear ↦ clear_bit_from-none x (h 0) none_clear
  | inr (k, found) ↦ ground arith
]
free_page_from-none i (x ∷ xs) (suc j) h e = elim (Option-cases (clear_bit_from 8 0 x)) [
  | inl none_clear ↦
      let full = clear_bit_from-none x (h 0) none_clear in
      free_page_from-none (suc i) xs j (λ k. h (suc k)) (ground arith)
  | inr (k, found) ↦ let rest = free_page_from-none (suc i) xs j (λ k. h (suc k)) in ground arith
]

-- A full byte holds no free page.
pub test_full : (m : Pmm) (q : ℕ) → get_or m.bitmap (q / 8) 255 ≡ 255 → pmm_test_bit m q ≡ true
unfolding pmm_test_bit
test_full m q e = rw e (test_in_full (q % 8) (omega arith))

pub found-IsLowest :
    {m : Pmm} (page : ℕ) → IsBitmap m → free_page_from 0 m.bitmap ≡ some page → IsLowest m page
unfolding pmm_test_bit
found-IsLowest {m} page v e =
    let f = free_page_from-some 0 m.bitmap v.bytes e in
    let c = f.first in
    let hi : page / 8 ≡ f.byte = omega (arith, f.page_eq, c.bit_lt) in
    let lo : page % 8 ≡ f.bit = omega (arith, f.page_eq, c.bit_lt) in
    record {
      page_lt = omega (arith, f.page_eq, c.bit_lt, f.byte_in, v.bitmap_len);
      clear = rw (hi, lo) c.clear;
      below = λ q lt. elim (dec_lt (q / 8) f.byte) [
        | yes p ↦ test_full m q (f.full_before (q / 8) p)
        | no p ↦
            let same : q / 8 ≡ f.byte = omega (arith, f.page_eq, c.bit_lt) in
            rw same (c.below (q % 8) (omega (arith, f.page_eq)))
      ];
    }

IsLowest-unique : {m : Pmm} (p q : ℕ) → IsLowest m p → IsLowest m q → p ≡ q
IsLowest-unique p q a b = elim (dec_lt p q) [
  | yes l ↦ absurd (cc (a.clear, b.below p l))
  | no l ↦ elim (dec_lt q p) [ yes k ↦ absurd (cc (b.clear, a.below q k)) | no k ↦ omega arith ]
]

-- Where some page is free, the allocator finds the lowest one.
pub find_of_IsLowest :
    {m : Pmm} (page : ℕ) → IsBitmap m → IsLowest m page → free_page_from 0 m.bitmap ≡ some page
find_of_IsLowest {m} page v l = elim (Option-cases (free_page_from 0 m.bitmap)) [
  | inl e ↦
      absurd (cc (l.clear, test_full m page (free_page_from-none 0 m.bitmap (page / 8) v.bytes e)))
  | inr (k, e) ↦ e ∙ ap some (IsLowest-unique k page (found-IsLowest k v e) l)
]
