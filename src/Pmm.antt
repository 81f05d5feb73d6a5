-- ===== src/Pmm.antt =====
-- src/pmm.c: the physical page allocator, a bitmap of 32768 pages of 4 KB. A set bit is a page in use.
mod Tests
pub mod Bits
pub mod Pages
pub mod Marks
pub mod Alloc
pub mod Init
use my_misu_os.Base.{
  ℕ, zero, suc, ◌+◌, ◌-◌, ◌*◌, ◌/◌, ◌%◌, ◌^◌, bit_and, bit_or, Bool, not, ◌&&◌, Option, none, some,
  List, [], ◌∷◌, ltb, ◌==◌, if◌then◌else◌, get_or, set,
}

abbrev pub page_size : ℕ
page_size = 4096

abbrev pub max_pages : ℕ
max_pages = 32768

abbrev pub bitmap_size : ℕ
bitmap_size = max_pages / 8

pub record Pmm : Type 0 where
  pub bitmap : List ℕ
  pub total_pages : ℕ
  pub used_pages : ℕ

-- A read past the bitmap gives a byte with every bit set; `page < max_pages` rules it out.
abbrev pub byte_of : Pmm → ℕ → ℕ
byte_of m page = get_or m.bitmap (page / 8) 255

-- `x | (1 << k)` and `x & ~(1 << k)` on a byte.
unfoldable pub set_in : ℕ → ℕ → ℕ
set_in x k = bit_or x (2 ^ k)

unfoldable pub clear_in : ℕ → ℕ → ℕ
clear_in x k = bit_and x (255 - 2 ^ k)

unfoldable pub test_in : ℕ → ℕ → Bool
test_in x k = not (bit_and x (2 ^ k) == 0)

unfoldable pub pmm_set_bit : Pmm → ℕ → Pmm
pmm_set_bit m page = record m {
  bitmap = set m.bitmap (page / 8) (set_in (byte_of m page) (page % 8));
}

unfoldable pub pmm_clear_bit : Pmm → ℕ → Pmm
pmm_clear_bit m page = record m {
  bitmap = set m.bitmap (page / 8) (clear_in (byte_of m page) (page % 8));
}

unfoldable pub pmm_test_bit : Pmm → ℕ → Bool
pmm_test_bit m page = test_in (byte_of m page) (page % 8)

-- The inner loop of `pmm_alloc_page`: the first clear bit from `bit` on, with `left` rounds to go.
unfoldable pub clear_bit_from : ℕ → ℕ → ℕ → Option ℕ
clear_bit_from zero bit x = none
clear_bit_from (suc left) bit x =
    let rest = clear_bit_from left (suc bit) x in if not (test_in x bit) then some bit else rest

-- The outer loop, from byte `i` of the bitmap on.
unfoldable pub free_page_from : ℕ → List ℕ → Option ℕ
free_page_from i [] = none
free_page_from i (x ∷ xs) =
    let rest = free_page_from (suc i) xs in
    if x == 255
    then rest
    else elim (clear_bit_from 8 0 x) [ some bit ↦ some (i * 8 + bit) | none ↦ rest ]

-- The address of the page, 0 when there is none, and the new state.
unfoldable pub pmm_alloc_page : Pmm → ℕ × Pmm
pmm_alloc_page m = elim (free_page_from 0 m.bitmap) [
  | none ↦ (0, m)
  | some page ↦ (
    page * page_size % 2 ^ 32,
    record (pmm_set_bit m page) { used_pages = (m.used_pages + 1) % 2 ^ 32 },
  )
]

unfoldable pub pmm_free_page : Pmm → ℕ → Pmm
pmm_free_page m addr =
    let page = addr / page_size in
    if ltb page max_pages && pmm_test_bit m page
    then record (pmm_clear_bit m page) { used_pages = (m.used_pages + 2 ^ 32 - 1) % 2 ^ 32 }
    else m

unfoldable pub pmm_get_total_pages : Pmm → ℕ
pmm_get_total_pages m = m.total_pages

unfoldable pub pmm_get_used_pages : Pmm → ℕ
pmm_get_used_pages m = m.used_pages

unfoldable pub pmm_get_free_pages : Pmm → ℕ
pmm_get_free_pages m = if ltb m.used_pages m.total_pages then m.total_pages - m.used_pages else 0

unfoldable pub pmm_get_total_memory_kb : Pmm → ℕ
pmm_get_total_memory_kb m = m.total_pages * 4 % 2 ^ 32
