-- ===== src/Gdt.antt =====
-- src/gdt.c and src/gdt.h: the segment descriptors.
pub mod Segments
mod Tests
use my_misu_os.Base.{
  ℕ, zero, suc, ◌+◌, ◌-◌, ◌*◌, ◌/◌, ◌%◌, ◌^◌, ◌≤◌, ◌<◌, bit_and, bit_or, bit_xor, min, ◌≡◌, refl,
  sym, ap, ap₂, subst, ◌∙◌, ◌≢◌, ◌↔◌, ◌⊎◌, inl, inr, Bool, true, false, not, ◌&&◌, ◌||◌, Option,
  none, some, List, [], ◌∷◌, ◌++◌, map, arith, ltb, leb, ◌==◌, if◌then◌else◌, ltb→lt, lt→ltb,
  leb→le, ==_iff, ==_self, Bool-cases, Option-cases, all_below, all_below_sound, length, get_or,
  set, take, drop, replicate, at_offset, length-set, get_or-set, set-set, get_or_default,
  length-append, length-take, length-drop, length-replicate, get_or-replicate, take_of_le,
  length-at_offset, drop-at_offset, get_or-at_offset_lt, ℤ, pos, negsuc, pos_part, neg_part, neg,
  sub_ℕ, ◌+ℤ◌, is_neg, ltb_ℤ, eq_ℤ, eq_ℤ_iff, signed32, pattern32, find_from, count_if, IsFirst,
  find_from-some, find_from-none, codes, set_default, get_or-set_all, get_or-replicate_all,
  get_or-set_self, get_or-set_ne, some-eq, set_same, if_all,
}

-- `struct gdt_entry`
pub record GdtEntry : Type 0 where
  pub limit_low : ℕ
  pub base_low : ℕ
  pub base_middle : ℕ
  pub access : ℕ
  pub granularity : ℕ
  pub base_high : ℕ

unfoldable pub zero_segment : GdtEntry
zero_segment = record {
  limit_low = 0;
  base_low = 0;
  base_middle = 0;
  access = 0;
  granularity = 0;
  base_high = 0;
}

-- A mask of low bits is a remainder, and the two halves of `granularity`, which have no bit in common,
-- are added.
unfoldable pub gdt_set_gate : List GdtEntry → ℕ → ℕ → ℕ → ℕ → ℕ → List GdtEntry
gdt_set_gate entries num base limit access gran = set entries num (record {
  base_low = base % 2 ^ 16;
  base_middle = base / 2 ^ 16 % 2 ^ 8;
  base_high = base / 2 ^ 24 % 2 ^ 8;
  limit_low = limit % 2 ^ 16;
  granularity = limit / 2 ^ 16 % 2 ^ 4 + gran / 2 ^ 4 % 2 ^ 4 * 2 ^ 4;
  access = access;
})

-- The table that `gdt_init` hands to the processor.
unfoldable pub gdt_init : List GdtEntry → List GdtEntry
gdt_init entries =
    gdt_set_gate (gdt_set_gate (gdt_set_gate entries 0 0 0 0 0) 1 0 0xFFFFFFFF 0x9A 0xCF) 2 0
      0xFFFFFFFF 0x92 0xCF
