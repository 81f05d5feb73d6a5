-- ===== src/Pmm/Marks.antt =====
-- Marking one page in the bitmap of src/pmm.c.
use my_misu_os.Base.{set_same}
use my_misu_os.Base.{
  ℕ, ◌+◌, ◌-◌, ◌/◌, ◌%◌, ◌<◌, ◌≡◌, ◌∙◌, true, false, arith, ◌==◌, if◌then◌else◌, length, get_or,
  set, length-set, get_or-set, set-set, get_or-set_all, get_or-set_self,
}
use my_misu_os.Pmm.{
  max_pages, Pmm, byte_of, set_in, clear_in, pmm_set_bit, pmm_clear_bit, pmm_test_bit,
}
use my_misu_os.Pmm.Bits.{
  test_in-set_in, set_in-lt, test_in-clear_in, clear_in-lt, ones-set_in, ones-clear_in,
  clear_in-set_in,
}
use my_misu_os.Pmm.Pages.{IsBitmap, IsValid, count_ones-set}

module _ (m : Pmm) (v : IsBitmap m) (page : ℕ) (lt : page < max_pages) where
  byte_lt : page / 8 < length m.bitmap
  byte_lt = omega (arith, v.bitmap_len)

  bit_lt : page % 8 < 8
  bit_lt = omega arith

  -- Setting a page's bit marks that page and no other.
  pub test-set_bit :
      (q : ℕ) → pmm_test_bit (pmm_set_bit m page) q ≡ (if page == q then true else pmm_test_bit m q)
  unfolding pmm_set_bit pmm_test_bit
  test-set_bit q = ground (
    arith,
    get_or-set m.bitmap (page / 8) (q / 8) (set_in (byte_of m page) (page % 8)) 255 byte_lt,
    test_in-set_in (byte_of m page) (page % 8) (v.bytes (page / 8)) bit_lt (q % 8) (omega arith),
  )

  pub test-clear_bit :
      (q : ℕ)
      → pmm_test_bit (pmm_clear_bit m page) q ≡ (if page == q then false else pmm_test_bit m q)
  unfolding pmm_clear_bit pmm_test_bit
  test-clear_bit q = ground (
    arith,
    get_or-set m.bitmap (page / 8) (q / 8) (clear_in (byte_of m page) (page % 8)) 255 byte_lt,
    test_in-clear_in (byte_of m page) (page % 8) (v.bytes (page / 8)) bit_lt (q % 8) (omega arith),
  )

  pub set_bit-IsBitmap : IsBitmap (pmm_set_bit m page)
  unfolding pmm_set_bit
  set_bit-IsBitmap = record {
    bitmap_len = length-set m.bitmap (page / 8) _ ∙ v.bitmap_len;
    bytes =
        get_or-set_all (λ b. b < 256) m.bitmap (page / 8) _ 255
          (set_in-lt (byte_of m page) (page % 8) (v.bytes (page / 8)) bit_lt) v.bytes;
  }

  pub clear_bit-IsBitmap : IsBitmap (pmm_clear_bit m page)
  unfolding pmm_clear_bit
  clear_bit-IsBitmap = record {
    bitmap_len = length-set m.bitmap (page / 8) _ ∙ v.bitmap_len;
    bytes =
        get_or-set_all (λ b. b < 256) m.bitmap (page / 8) _ 255
          (clear_in-lt (byte_of m page) (page % 8) (v.bytes (page / 8)) bit_lt) v.bytes;
  }

module _ (m : Pmm) (v : IsValid m) (page : ℕ) (lt : page < max_pages) where
  pub byte_inside : page / 8 < length m.bitmap
  byte_inside = omega (arith, v.shape.bitmap_len)

  pub set_bit-IsValid :
      pmm_test_bit m page ≡ false
      → IsValid (record (pmm_set_bit m page) { used_pages = m.used_pages + 1 })
  unfolding pmm_set_bit pmm_test_bit
  set_bit-IsValid e =
      let x = byte_of m page in
      let x' = set_in x (page % 8) in
      let one = ones-set_in x (page % 8) (v.shape.bytes (page / 8)) (omega arith) e in
      let sum = count_ones-set m.bitmap (page / 8) x' byte_inside in
      record {
        shape =
            let b = set_bit-IsBitmap m v.shape page lt in
            record { bitmap_len = b.bitmap_len; bytes = b.bytes };
        counted = omega (arith, v.counted);
      }

  pub clear_bit-IsValid :
      pmm_test_bit m page ≡ true
      → IsValid (record (pmm_clear_bit m page) { used_pages = m.used_pages - 1 })
  unfolding pmm_clear_bit pmm_test_bit
  clear_bit-IsValid e =
      let x = byte_of m page in
      let x' = clear_in x (page % 8) in
      let one = ones-clear_in x (page % 8) (v.shape.bytes (page / 8)) (omega arith) e in
      let sum = count_ones-set m.bitmap (page / 8) x' byte_inside in
      record {
        shape =
            let b = clear_bit-IsBitmap m v.shape page lt in
            record { bitmap_len = b.bitmap_len; bytes = b.bytes };
        counted = omega (arith, v.counted);
      }

  -- A page in use is counted.
  pub used-pos : pmm_test_bit m page ≡ true → 0 < m.used_pages
  unfolding pmm_test_bit
  used-pos e =
      let x = byte_of m page in
      let one = ones-clear_in x (page % 8) (v.shape.bytes (page / 8)) (omega arith) e in
      let sum = count_ones-set m.bitmap (page / 8) (clear_in x (page % 8)) byte_inside in
      omega (arith, v.counted)

  -- A bit set and cleared again leaves the bitmap as it was.
  pub clear-set_bit :
      pmm_test_bit m page ≡ false → (pmm_clear_bit (pmm_set_bit m page) page).bitmap ≡ m.bitmap
  unfolding pmm_set_bit pmm_clear_bit pmm_test_bit
  clear-set_bit e =
      let x = byte_of m page in
      let x' = set_in x (page % 8) in
      let back : get_or (set m.bitmap (page / 8) x') (page / 8) 255 ≡ x' =
        get_or-set_self m.bitmap (page / 8) x' 255 byte_inside in
      rw (back, clear_in-set_in x (page % 8) (v.shape.bytes (page / 8)) (omega arith) e)
        (set-set m.bitmap (page / 8) x' x ∙ set_same m.bitmap (page / 8) 255)
