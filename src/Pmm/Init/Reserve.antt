-- ===== src/Pmm/Init/Reserve.antt =====
-- What `pmm_init` of src/pmm.c keeps from the allocator.
use my_misu_os.Pmm.{free_page_from}
use my_misu_os.Base.{
  ℕ, zero, suc, ◌+◌, ◌/◌, ◌%◌, ◌^◌, ◌≤◌, ◌<◌, bit_and, ◌≡◌, sym, ap, ◌∙◌, ◌⊎◌, inl, inr, true, some,
  List, [], ◌∷◌, arith, ltb, ◌==◌, if◌then◌else◌, Bool-cases, length-replicate,
  get_or-replicate_all,
}
use native.Mathlib.Decide.{dec_lt, ℕ_discrete}
use my_misu_os.Pmm.{page_size, max_pages, bitmap_size, Pmm, pmm_test_bit}
use mathlib.Core.Bool.{false≢true}
use my_misu_os.Pmm.Pages.{IsBitmap, found-IsLowest}
use my_misu_os.Pmm.Marks.{test-set_bit, set_bit-IsBitmap, clear_bit-IsBitmap}
use my_misu_os.Pmm.Init.{
  MmapEntry, MultibootInfo, release_page, release_range, release_entry, release_map, reserve_page,
  reserve_from, kernel_rounds, all_used, mapped, pmm_init,
}

release_page-IsBitmap : {m : Pmm} (page : ℕ) → IsBitmap m → IsBitmap (release_page m page)
unfolding release_page
release_page-IsBitmap {m} page v = elim (dec_lt page max_pages) [
  | yes lt ↦ let b = clear_bit-IsBitmap m v page lt in ground arith
  | no far ↦ ground arith
]

release_range-IsBitmap :
    (fuel addr end : ℕ) {m : Pmm} → IsBitmap m → IsBitmap (release_range fuel addr end m)
unfolding release_range
release_range-IsBitmap zero addr end v = v
release_range-IsBitmap (suc fuel) addr end {m} v = elim (Bool-cases (ltb addr end)) [
  | inl more ↦ rw more (
      release_range-IsBitmap fuel ((addr + page_size) % 2 ^ 32) end
        (release_page-IsBitmap (addr / page_size) v))
  | inr done ↦ rw done v
]

release_entry-IsBitmap : {m : Pmm} (e : MmapEntry) → IsBitmap m → IsBitmap (release_entry m e)
unfolding release_entry
release_entry-IsBitmap e v = elim (Bool-cases (e.type == 1)) [
  | inl ram ↦ rw ram (release_range-IsBitmap (2 ^ 20) _ _ v)
  | inr other ↦ rw other v
]

release_map-IsBitmap : (es : List MmapEntry) {m : Pmm} → IsBitmap m → IsBitmap (release_map m es)
unfolding release_map
release_map-IsBitmap [] v = v
release_map-IsBitmap (e ∷ es) v = release_map-IsBitmap es (release_entry-IsBitmap e v)

all_used-IsBitmap : (total : ℕ) → IsBitmap (all_used total)
unfolding all_used
all_used-IsBitmap total = record {
  bitmap_len = length-replicate {A = ℕ} bitmap_size 255;
  bytes =
      λ i. get_or-replicate_all (λ b. b < 256) bitmap_size i 255 255 (omega arith) (omega arith);
}

mapped-IsBitmap : (mbi : MultibootInfo) → IsBitmap (mapped mbi)
unfolding mapped
mapped-IsBitmap mbi =
    let v = all_used-IsBitmap ((mbi.mem_lower + mbi.mem_upper + 1024) % 2 ^ 32 / 4) in
    elim (Bool-cases (bit_and mbi.flags (2 ^ 6) == 0)) [
      | inl e ↦ rw e v
      | inr e ↦ rw e (release_map-IsBitmap mbi.mmap v)
    ]

reserve_page-IsBitmap :
    {m : Pmm} (page : ℕ) → page < max_pages → IsBitmap m → IsBitmap (reserve_page m page)
unfolding reserve_page
reserve_page-IsBitmap {m} page lt v = let b = set_bit-IsBitmap m v page lt in ground arith

same_test :
    (m : Pmm) (page q : ℕ)
    → pmm_test_bit m page ≡ true
    → pmm_test_bit m q ≡ (if page == q then true else pmm_test_bit m q)
same_test m page q used = elim (ℕ_discrete page q) [
  | yes e ↦ let here = ap (pmm_test_bit m) e in ground arith
  | no ne ↦ ground arith
]

reserve_page-test :
    {m : Pmm} (page q : ℕ)
    → page < max_pages
    → IsBitmap m
    → pmm_test_bit (reserve_page m page) q ≡ (if page == q then true else pmm_test_bit m q)
unfolding reserve_page pmm_test_bit
reserve_page-test {m} page q lt v = elim (Bool-cases (pmm_test_bit m page)) [
  | inl used ↦ rw used (same_test m page q used)
  | inr clear ↦ rw clear (test-set_bit m v page lt q)
]

-- Pages once reserved stay so.
reserve_from-keeps :
    (left i q : ℕ) {m : Pmm}
    → i + left ≤ max_pages
    → IsBitmap m
    → pmm_test_bit m q ≡ true
    → pmm_test_bit (reserve_from left i m) q ≡ true
unfolding reserve_from
reserve_from-keeps zero i q h v e = e
reserve_from-keeps (suc left) i q {m} h v e =
    reserve_from-keeps left (suc i) q (omega arith) (reserve_page-IsBitmap i (omega arith) v)
      (ground (arith, reserve_page-test {m = m} i q (omega arith) v))

reserve_from-IsBitmap :
    (left i : ℕ) {m : Pmm} → i + left ≤ max_pages → IsBitmap m → IsBitmap (reserve_from left i m)
unfolding reserve_from
reserve_from-IsBitmap zero i h v = v
reserve_from-IsBitmap (suc left) i h v =
    reserve_from-IsBitmap left (suc i) (omega arith) (reserve_page-IsBitmap i (omega arith) v)

reserve_from-sets :
    (left i q : ℕ) {m : Pmm}
    → i + left ≤ max_pages
    → IsBitmap m
    → i ≤ q
    → q < i + left
    → pmm_test_bit (reserve_from left i m) q ≡ true
unfolding reserve_from
reserve_from-sets zero i q h v lo hi = absurd (omega arith)
reserve_from-sets (suc left) i q {m} h v lo hi =
    let w = reserve_page-IsBitmap i (omega arith) v in
    elim (dec_lt i q) [
      | yes lt ↦ reserve_from-sets left (suc i) q (omega arith) w (omega arith) (omega arith)
      | no ge ↦
          reserve_from-keeps left (suc i) q (omega arith) w
            (ground (arith, reserve_page-test {m = m} i q (omega arith) v))
    ]

rounds-le : (k : ℕ) → 256 + kernel_rounds k ≤ max_pages
unfolding kernel_rounds
rounds-le k = ground arith

rounds_reach : (k q : ℕ) → q < max_pages → q ≤ k → q < 256 + kernel_rounds k
unfolding kernel_rounds
rounds_reach k q lt le = ground arith

pmm_init-IsBitmap : (mbi : MultibootInfo) (kernel_end : ℕ) → IsBitmap (pmm_init mbi kernel_end)
unfolding pmm_init
pmm_init-IsBitmap mbi kernel_end =
    reserve_from-IsBitmap (kernel_rounds (kernel_end / page_size + 1)) 256 (rounds-le _)
      (reserve_from-IsBitmap 256 0 (omega arith) (mapped-IsBitmap mbi))

held_pages :
    (mbi : MultibootInfo) (kernel_end q : ℕ)
    → q < max_pages
    → (q < 256) ⊎ (q ≤ kernel_end / page_size + 1)
    → pmm_test_bit (pmm_init mbi kernel_end) q ≡ true
unfolding pmm_init
held_pages mbi kernel_end q lt h =
    let n = kernel_rounds (kernel_end / page_size + 1) in
    let low = reserve_from-IsBitmap 256 0 (omega arith) (mapped-IsBitmap mbi) in
    elim (dec_lt q 256) [
      | yes small ↦
          reserve_from-keeps n 256 q (rounds-le _) low
            (reserve_from-sets 256 0 q (omega arith) (mapped-IsBitmap mbi) (omega arith) small)
      | no large ↦
          reserve_from-sets n 256 q (rounds-le _) low (omega arith)
            (rounds_reach (kernel_end / page_size + 1) q lt (omega arith))
    ]

-- After `pmm_init`, whatever the memory map says, the first megabyte and the pages up to and including
-- the one behind the end of the kernel are marked as in use, and so the allocator's first page, if it
-- has any, is none of these.
pub pmm_init-reserves :
    (mbi : MultibootInfo) (kernel_end : ℕ)
    → let m = pmm_init mbi kernel_end in
      ((q : ℕ)
        → q < max_pages
        → (q < 256) ⊎ (q ≤ kernel_end / page_size + 1)
        → pmm_test_bit m q ≡ true)
      × ((page : ℕ)
          → free_page_from 0 m.bitmap ≡ some page
          → (256 ≤ page) × (kernel_end / page_size + 1 < page))
pmm_init-reserves mbi kernel_end =
    let held = held_pages mbi kernel_end in
    (
      held,
      λ page e.
          let l = found-IsLowest page (pmm_init-IsBitmap mbi kernel_end) e in
          let out = λ (h : (page < 256) ⊎ (page ≤ kernel_end / page_size + 1)).
            false≢true (sym l.clear ∙ held page l.page_lt h) in
          (
            elim (dec_lt page 256) [ yes p ↦ absurd (out (inl p)) | no p ↦ omega arith ],
            elim (dec_lt (kernel_end / page_size + 1) page) [
              | yes p ↦ p
              | no p ↦ absurd (out (inr (omega arith)))
            ],
          ),
    )
