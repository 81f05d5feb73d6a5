-- ===== src/Pmm/Alloc.antt =====
-- `pmm_alloc_page` and `pmm_free_page` of src/pmm.c.
use native.Mathlib.Decide.{dec_lt, ℕ_discrete}
use my_misu_os.Base.{
  ℕ, ◌+◌, ◌-◌, ◌*◌, ◌/◌, ◌%◌, ◌^◌, ◌≤◌, ◌<◌, ◌≡◌, refl, sym, ap, ◌∙◌, ◌⊎◌, inl, inr, true, false,
  none, arith, ◌==◌, if◌then◌else◌, Bool-cases, Option-cases,
}
use my_misu_os.Pmm.{
  page_size, max_pages, Pmm, pmm_set_bit, pmm_clear_bit, pmm_test_bit, free_page_from,
  pmm_alloc_page, pmm_free_page, pmm_get_free_pages,
}
use my_misu_os.Pmm.Pages.{
  IsValid, IsLowest, count_ones, used-le, find_of_IsLowest, found-IsLowest, free_page_from-none,
  test_full,
}
use my_misu_os.Pmm.Marks.{
  test-set_bit, test-clear_bit, set_bit-IsValid, clear_bit-IsValid, used-pos, clear-set_bit,
}

marked : Pmm → ℕ → Pmm
marked m page = record (pmm_set_bit m page) { used_pages = m.used_pages + 1 }

alloc_eq :
    {m : Pmm} (page : ℕ)
    → IsValid m
    → IsLowest m page
    → pmm_alloc_page m ≡ (page * page_size, marked m page)
unfolding pmm_alloc_page marked
alloc_eq {m} page v l =
    let lt = l.page_lt in
    let count : (m.used_pages + 1) % 2 ^ 32 ≡ m.used_pages + 1 = omega (arith, used-le v) in
    let addr : page * 4096 % 2 ^ 32 ≡ page * 4096 = omega arith in
    rw (find_of_IsLowest page v.shape l, pmm_alloc_page) (rw (count, addr))

-- With a free page, `pmm_alloc_page` returns the address of the lowest one, marks it and no other page,
-- counts it, and keeps the bitmap and the count consistent.
pub pmm_alloc_page-lowest :
    {m : Pmm} (page : ℕ)
    → IsValid m
    → IsLowest m page
    → let (addr, m') = pmm_alloc_page m in
      (addr ≡ page * page_size)
      × (m'.used_pages ≡ m.used_pages + 1)
      × ((q : ℕ) → pmm_test_bit m' q ≡ (if page == q then true else pmm_test_bit m q))
      × IsValid m'
unfolding pmm_set_bit pmm_test_bit
pmm_alloc_page-lowest {m} page v l = rw (alloc_eq page v l) (
    unfold marked in
    (refl, refl, test-set_bit m v.shape page l.page_lt, set_bit-IsValid m v page l.page_lt l.clear))

AllUsed : Pmm → Type 0
AllUsed m = (q : ℕ) → q < max_pages → pmm_test_bit m q ≡ true

alloc_none : {m : Pmm} → free_page_from 0 m.bitmap ≡ none → pmm_alloc_page m ≡ (0, m)
unfolding pmm_alloc_page
alloc_none {m} e = ground arith

alloc-AllUsed : {m : Pmm} → IsValid m → AllUsed m → pmm_alloc_page m ≡ (0, m)
unfolding AllUsed
alloc-AllUsed {m} v all = elim (Option-cases (free_page_from 0 m.bitmap)) [
  | inl e ↦ alloc_none e
  | inr (k, e) ↦ let l = found-IsLowest k v.shape e in absurd (cc (l.clear, all k l.page_lt))
]

AllUsed-of_zero :
    {m : Pmm} → IsValid m → pmm_test_bit m 0 ≡ true → (pmm_alloc_page m).0 ≡ 0 → AllUsed m
unfolding AllUsed
AllUsed-of_zero {m} v zero_used h = elim (Option-cases (free_page_from 0 m.bitmap)) [
  | inl e ↦ λ q lt. test_full m q (free_page_from-none 0 m.bitmap (q / 8) v.shape.bytes e)
  | inr (k, e) ↦
      let l = found-IsLowest k v.shape e in
      let addr : k * page_size ≡ 0 = sym (ap (λ (r : ℕ × Pmm). r.0) (alloc_eq k v l)) ∙ h in
      let first : k ≡ 0 = omega arith in absurd (cc (l.clear, zero_used, ap (pmm_test_bit m) first))
]

-- `pmm_alloc_page` returns 0 exactly when every page is in use, and then changes nothing. Page 0 is
-- taken to be reserved, since its address is the same 0.
pub pmm_alloc_page_out :
    {m : Pmm}
    → IsValid m
    → pmm_test_bit m 0 ≡ true
    → ((pmm_alloc_page m).0 ≡ 0 → (q : ℕ) → q < max_pages → pmm_test_bit m q ≡ true)
      × (((q : ℕ) → q < max_pages → pmm_test_bit m q ≡ true) → pmm_alloc_page m ≡ (0, m))
unfolding AllUsed
pmm_alloc_page_out v zero_used = (AllUsed-of_zero v zero_used, alloc-AllUsed v)

cleared : Pmm → ℕ → Pmm
cleared m page = record (pmm_clear_bit m page) { used_pages = m.used_pages - 1 }

free_eq :
    {m : Pmm} (addr : ℕ)
    → IsValid m
    → addr / page_size < max_pages
    → pmm_test_bit m (addr / page_size) ≡ true
    → pmm_free_page m addr ≡ cleared m (addr / page_size)
unfolding pmm_free_page cleared
free_eq {m} addr v lt used =
    let pos_used = used-pos m v (addr / page_size) lt used in
    let count : (m.used_pages + 2 ^ 32 - 1) % 2 ^ 32 ≡ m.used_pages - 1 =
      omega (arith, used-le v) in
    ground arith

free_none :
    {m : Pmm} (addr : ℕ)
    → (max_pages ≤ addr / page_size) ⊎ (pmm_test_bit m (addr / page_size) ≡ false)
    → pmm_free_page m addr ≡ m
unfolding pmm_free_page
free_none {m} addr (inl far) = ground arith
free_none {m} addr (inr clear) = ground arith

marked-IsValid : {m : Pmm} (page : ℕ) → IsValid m → IsLowest m page → IsValid (marked m page)
unfolding marked
marked-IsValid {m} page v l = set_bit-IsValid m v page l.page_lt l.clear

marked-test :
    {m : Pmm} (page : ℕ) → IsValid m → IsLowest m page → pmm_test_bit (marked m page) page ≡ true
unfolding marked pmm_set_bit pmm_test_bit
marked-test {m} page v l = ground (arith, test-set_bit m v.shape page l.page_lt page)

cleared-marked :
    {m : Pmm} (page : ℕ) → IsValid m → IsLowest m page → cleared (marked m page) page ≡ m
unfolding cleared marked pmm_clear_bit pmm_set_bit
cleared-marked {m} page v l = ground (arith, clear-set_bit m v page l.page_lt l.clear)

-- Freeing the page that was just allocated restores the allocator, bitmap and counts.
pub free-alloc :
    {m : Pmm} (page : ℕ)
    → IsValid m
    → IsLowest m page
    → pmm_free_page (pmm_alloc_page m).1 (pmm_alloc_page m).0 ≡ m
free-alloc {m} page v l =
    let lt = l.page_lt in
    let same : page * page_size / page_size ≡ page = omega arith in
    let used : pmm_test_bit (marked m page) (page * page_size / page_size) ≡ true =
      rw same (marked-test page v l) in
    rw (alloc_eq page v l) (
      free_eq (page * page_size) (marked-IsValid page v l) (omega arith) used
      ∙ ap (cleared (marked m page)) same
      ∙ cleared-marked page v l)

-- What `pmm_free_page` leaves of an allocator.
record Freed (m m' : Pmm) (addr : ℕ) : Type 0 where
  valid : IsValid m'
  bits :
      (q : ℕ)
      → q < max_pages
      → pmm_test_bit m' q ≡ (if addr / page_size == q then false else pmm_test_bit m q)

Freed-used :
    {m : Pmm} (addr : ℕ)
    → IsValid m
    → addr / page_size < max_pages
    → pmm_test_bit m (addr / page_size) ≡ true
    → Freed m (cleared m (addr / page_size)) addr
unfolding cleared pmm_clear_bit pmm_test_bit
Freed-used {m} addr v lt used = record {
  valid = clear_bit-IsValid m v (addr / page_size) lt used;
  bits = λ q _. test-clear_bit m v.shape (addr / page_size) lt q;
}

clear_at :
    (m : Pmm) (q page : ℕ)
    → page ≡ q
    → pmm_test_bit m page ≡ false
    → pmm_test_bit m q ≡ (if page == q then false else pmm_test_bit m q)
clear_at m q page e clear = let here = ap (pmm_test_bit m) e in ground arith

Freed-none :
    {m : Pmm} (addr : ℕ)
    → IsValid m
    → (max_pages ≤ addr / page_size) ⊎ (pmm_test_bit m (addr / page_size) ≡ false)
    → Freed m m addr
Freed-none {m} addr v (inl far) = record { valid = v; bits = λ q lt. ground arith }
Freed-none {m} addr v (inr clear) = record {
  valid = v;
  bits = λ q lt. elim (ℕ_discrete (addr / page_size) q) [
    | yes e ↦ clear_at m q (addr / page_size) e clear
    | no ne ↦ ground arith
  ];
}

freed : {m : Pmm} (addr : ℕ) → IsValid m → Freed m (pmm_free_page m addr) addr
freed {m} addr v = elim (dec_lt (addr / page_size) max_pages) [
  | no far ↦ rw (free_none addr (inl (omega arith))) (Freed-none addr v (inl (omega arith)))
  | yes lt ↦ elim (Bool-cases (pmm_test_bit m (addr / page_size))) [
    | inl used ↦ rw (free_eq addr v lt used) (Freed-used addr v lt used)
    | inr clear ↦ rw (free_none addr (inr clear)) (Freed-none addr v (inr clear))
  ]
]

-- `pmm_free_page` of any address keeps the bitmap and the count consistent. It clears the page that the
-- address lies in, if that is one of the managed pages, and no other, and freeing the same address once
-- more changes nothing.
pub pmm_free_page_lem :
    {m : Pmm} (addr : ℕ)
    → IsValid m
    → let m' = pmm_free_page m addr in
      IsValid m'
      × ((q : ℕ)
          → q < max_pages
          → pmm_test_bit m' q ≡ (if addr / page_size == q then false else pmm_test_bit m q))
      × (pmm_free_page m' addr ≡ m')
pmm_free_page_lem {m} addr v =
    let f = freed addr v in
    (
      f.valid,
      f.bits,
      elim (dec_lt (addr / page_size) max_pages) [
        | no far ↦ free_none addr (inl (omega arith))
        | yes lt ↦ free_none addr (inr (ground (arith, f.bits (addr / page_size) lt)))
      ],
    )

-- `pmm_get_free_pages` counts from the pages that the machine has, and `used_pages` from all 32768 that
-- the bitmap has: the result falls short of the number of clear bits by the number of pages that the
-- machine lacks, and is 0 if there are no more clear bits than that.
pub pmm_get_free_pages_short :
    {m : Pmm}
    → IsValid m
    → m.total_pages ≤ max_pages
    → pmm_get_free_pages m ≡ (max_pages - count_ones m.bitmap) - (max_pages - m.total_pages)
unfolding pmm_get_free_pages
pmm_get_free_pages_short {m} v h = ground (arith, v.counted, used-le v)
