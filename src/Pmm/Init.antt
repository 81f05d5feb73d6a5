-- ===== src/Pmm/Init.antt =====
-- `pmm_init` of src/pmm.c. The memory map that the boot loader left in memory is the list of the
-- entries which the walk from `mmap_addr` to its end visits; the address of the linker's symbol
-- `_kernel_end` is a parameter.
pub mod Reserve
use my_misu_os.Base.{
  ℕ, zero, suc, ◌+◌, ◌-◌, ◌*◌, ◌/◌, ◌%◌, ◌^◌, bit_and, not, ◌&&◌, List, [], ◌∷◌, ltb, ◌==◌,
  if◌then◌else◌, replicate,
}
use my_misu_os.Pmm.{
  page_size, max_pages, bitmap_size, Pmm, pmm_set_bit, pmm_clear_bit, pmm_test_bit,
}

-- `multiboot_mmap_entry_t`: two 64-bit fields and a type.
pub record MmapEntry : Type 0 where
  pub addr : ℕ
  pub len : ℕ
  pub type : ℕ

-- The fields of `multiboot_info_t` that are read, with the entries of the map.
pub record MultibootInfo : Type 0 where
  pub flags : ℕ
  pub mem_lower : ℕ
  pub mem_upper : ℕ
  pub mmap : List MmapEntry

-- `x & ~(PAGE_SIZE - 1)`
unfoldable pub page_down : ℕ → ℕ
page_down x = x / page_size * page_size

-- The body of the loop over the addresses of an entry.
unfoldable pub release_page : Pmm → ℕ → Pmm
release_page m page =
    if ltb page max_pages && ltb 0 page
    then record (pmm_clear_bit m page) { used_pages = (m.used_pages + 2 ^ 32 - 1) % 2 ^ 32 }
    else m

-- `for (addr = start; addr < end; addr += PAGE_SIZE)`. An entry has at most 2 ^ 20 pages.
unfoldable pub release_range : ℕ → ℕ → ℕ → Pmm → Pmm
release_range zero addr end m = m
release_range (suc fuel) addr end m =
    let rest =
      release_range fuel ((addr + page_size) % 2 ^ 32) end (release_page m (addr / page_size)) in
    if ltb addr end then rest else m

-- One entry of the map; both 64-bit fields are cut to 32 bits.
unfoldable pub release_entry : Pmm → MmapEntry → Pmm
release_entry m e =
    let base = e.addr % 2 ^ 32 in
    let len = e.len % 2 ^ 32 in
    let start = page_down ((base + page_size - 1) % 2 ^ 32) in
    let end = page_down ((base + len) % 2 ^ 32) in
    if e.type == 1 then release_range (2 ^ 20) start end m else m

unfoldable pub release_map : Pmm → List MmapEntry → Pmm
release_map m [] = m
release_map m (e ∷ es) = release_map (release_entry m e) es

-- `if (!pmm_test_bit(i)) { pmm_set_bit(i); used_pages++; }`
unfoldable pub reserve_page : Pmm → ℕ → Pmm
reserve_page m page =
    if not (pmm_test_bit m page)
    then record (pmm_set_bit m page) { used_pages = (m.used_pages + 1) % 2 ^ 32 }
    else m

-- Pages `i`, `i + 1`, ... are reserved, `left` of them.
unfoldable pub reserve_from : ℕ → ℕ → Pmm → Pmm
reserve_from zero i m = m
reserve_from (suc left) i m = reserve_from left (suc i) (reserve_page m i)

-- `for (i = 256; i <= kernel_end_page && i < MAX_PAGES; i++)`: the number of its rounds.
unfoldable pub kernel_rounds : ℕ → ℕ
kernel_rounds kernel_end_page =
    if ltb kernel_end_page max_pages then kernel_end_page + 1 - 256 else max_pages - 256

-- The state after the `memset` of the bitmap: every page is marked as in use.
unfoldable pub all_used : ℕ → Pmm
all_used total = record {
  bitmap = replicate bitmap_size 255;
  total_pages = if ltb max_pages total then max_pages else total;
  used_pages = max_pages;
}

-- The state after the loop over the map.
unfoldable pub mapped : MultibootInfo → Pmm
mapped mbi =
    let total_kb = (mbi.mem_lower + mbi.mem_upper + 1024) % 2 ^ 32 in
    let m = all_used (total_kb / 4) in
    if not (bit_and mbi.flags (2 ^ 6) == 0) then release_map m mbi.mmap else m

unfoldable pub pmm_init : MultibootInfo → ℕ → Pmm
pmm_init mbi kernel_end =
    let low = reserve_from 256 0 (mapped mbi) in
    reserve_from (kernel_rounds (kernel_end / page_size + 1)) 256 low
