-- ===== src/Pmm/Tests.antt =====
-- The page allocator of src/pmm.c with one free page, and after `pmm_init` on a small machine.
use my_misu_os.Base.{
  ℕ, ◌+◌, ◌-◌, ◌*◌, ◌/◌, ◌≤◌, ◌<◌, ◌≡◌, refl, sym, ◌∙◌, ◌⊎◌, true, false, some, [], ◌∷◌, arith,
  ◌==◌, if◌then◌else◌, all_below, all_below_sound, set, replicate, length-set, length-replicate,
  get_or-set_all, get_or-replicate_all,
}
use my_misu_os.Pmm.{
  page_size, max_pages, bitmap_size, Pmm, test_in, pmm_test_bit, pmm_alloc_page, pmm_free_page,
  pmm_get_free_pages, free_page_from,
}
use my_misu_os.Pmm.Bits.{ones, ones_from}
use my_misu_os.Pmm.Pages.{count_ones, IsValid, IsLowest}
use my_misu_os.Pmm.Alloc.{
  pmm_alloc_page-lowest, pmm_alloc_page_out, pmm_free_page_lem, pmm_get_free_pages_short,
}
use my_misu_os.Pmm.Init.{MultibootInfo, pmm_init}
use my_misu_os.Pmm.Init.Reserve.{pmm_init-reserves}

-- Page 44 is free.
abbrev one_free : Pmm
one_free = record {
  bitmap = set (replicate bitmap_size 255) 5 239;
  total_pages = 20000;
  used_pages = 32767;
}

one_free_count : count_ones one_free.bitmap ≡ 32767
unfolding count_ones ones ones_from test_in
one_free_count = refl

one_free-IsValid : IsValid one_free
one_free-IsValid = record {
  shape = record {
    bitmap_len =
        length-set {A = ℕ} (replicate bitmap_size 255) 5 239
        ∙ length-replicate {A = ℕ} bitmap_size 255;
    bytes =
        get_or-set_all (λ (x : ℕ). x < 256) (replicate bitmap_size 255) 5 239 255 (omega arith)
          (λ j.
            get_or-replicate_all (λ (x : ℕ). x < 256) bitmap_size j 255 255 (omega arith)
              (omega arith));
  };
  counted = sym one_free_count;
}

first_pages : all_below 44 (pmm_test_bit one_free) ≡ true
unfolding all_below pmm_test_bit test_in
first_pages = refl

page_44 : pmm_test_bit one_free 44 ≡ false
unfolding pmm_test_bit test_in
page_44 = refl

one_free-IsLowest : IsLowest one_free 44
one_free-IsLowest = record {
  page_lt = omega arith;
  clear = page_44;
  below = λ q lt. all_below_sound 44 (pmm_test_bit one_free) q first_pages lt;
}

pmm_alloc_page-lowest_example :
    let (addr, m') = pmm_alloc_page one_free in
    (addr ≡ 44 * page_size)
    × (m'.used_pages ≡ one_free.used_pages + 1)
    × ((q : ℕ) → pmm_test_bit m' q ≡ (if 44 == q then true else pmm_test_bit one_free q))
    × IsValid m'
pmm_alloc_page-lowest_example =
    pmm_alloc_page-lowest {m = one_free} 44 one_free-IsValid one_free-IsLowest

pmm_alloc_page_out_example :
    ((pmm_alloc_page one_free).0 ≡ 0 → (q : ℕ) → q < max_pages → pmm_test_bit one_free q ≡ true)
    × (((q : ℕ) → q < max_pages → pmm_test_bit one_free q ≡ true)
        → pmm_alloc_page one_free ≡ (0, one_free))
pmm_alloc_page_out_example =
    pmm_alloc_page_out {m = one_free} one_free-IsValid
      (all_below_sound 44 (pmm_test_bit one_free) 0 first_pages (omega arith))

pmm_free_page_lem_example :
    let m' = pmm_free_page one_free 8192 in
    IsValid m'
    × ((q : ℕ)
        → q < max_pages
        → pmm_test_bit m' q ≡ (if 8192 / page_size == q then false else pmm_test_bit one_free q))
    × (pmm_free_page m' 8192 ≡ m')
pmm_free_page_lem_example = pmm_free_page_lem {m = one_free} 8192 one_free-IsValid

pmm_get_free_pages_short_example :
    pmm_get_free_pages one_free ≡ (max_pages - count_ones one_free.bitmap) - (max_pages - 20000)
pmm_get_free_pages_short_example =
    pmm_get_free_pages_short {m = one_free} one_free-IsValid (omega arith)

abbrev machine : MultibootInfo
machine = record {
  flags = 64;
  mem_lower = 640;
  mem_upper = 1024;
  mmap = record { addr = 1048576; len = 1048576; type = 1 } ∷ [];
}

pmm_init-reserves_example :
    let m = pmm_init machine 1100000 in
    ((q : ℕ) → q < max_pages → (q < 256) ⊎ (q ≤ 1100000 / page_size + 1) → pmm_test_bit m q ≡ true)
    × ((page : ℕ)
        → free_page_from 0 m.bitmap ≡ some page
        → (256 ≤ page) × (1100000 / page_size + 1 < page))
pmm_init-reserves_example = pmm_init-reserves machine 1100000
