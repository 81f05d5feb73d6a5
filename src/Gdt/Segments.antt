-- ===== src/Gdt/Segments.antt =====
-- The segments that the descriptors of src/gdt.c stand for.
use my_misu_os.Gdt.{gdt_init}
use my_misu_os.Base.{
  ℕ, ◌+◌, ◌-◌, ◌*◌, ◌/◌, ◌%◌, ◌^◌, ◌<◌, ◌≡◌, refl, sym, ap, ◌∙◌, ◌≢◌, List, [], ◌∷◌, arith, ◌==◌,
  if◌then◌else◌, length, get_or, get_or-set_self, get_or-set_ne,
}
use my_misu_os.Base.{
  ℕ, ◌+◌, ◌*◌, ◌/◌, ◌%◌, ◌^◌, ◌<◌, ◌≡◌, sym, ap, ◌∙◌, ◌≢◌, List, arith, ◌==◌, if◌then◌else◌, length,
  get_or, get_or-set_self, get_or-set_ne,
}
use my_misu_os.Gdt.{GdtEntry, zero_segment, gdt_set_gate}

-- The segment of a descriptor, as the processor reads it: with its granularity bit set, the limit counts
-- pages of 4096 bytes.
unfoldable pub base_of : GdtEntry → ℕ
base_of e = e.base_low + e.base_middle * 2 ^ 16 + e.base_high * 2 ^ 24

unfoldable pub raw_limit : GdtEntry → ℕ
raw_limit e = e.limit_low + e.granularity % 2 ^ 4 * 2 ^ 16

unfoldable pub flags_of : GdtEntry → ℕ
flags_of e = e.granularity / 2 ^ 4

unfoldable pub last_byte : GdtEntry → ℕ
last_byte e = if flags_of e / 2 ^ 3 == 1 then raw_limit e * 2 ^ 12 + 0xFFF else raw_limit e

-- The descriptor that `gdt_set_gate` writes gives back the base, the low 20 bits of the limit, the four
-- flags and the access byte; the other descriptors stay.
pub gdt_set_gate-decoded :
    (entries : List GdtEntry) (num j base limit access gran : ℕ)
    → num < length entries
    → j ≢ num
    → base < 2 ^ 32
    → gran < 2 ^ 8
    → let after = gdt_set_gate entries num base limit access gran in
      let e = get_or after num zero_segment in
      (base_of e ≡ base)
      × (raw_limit e ≡ limit % 2 ^ 20)
      × (flags_of e ≡ gran / 2 ^ 4)
      × (e.access ≡ access)
      × (get_or after j zero_segment ≡ get_or entries j zero_segment)
unfolding gdt_set_gate base_of raw_limit flags_of
gdt_set_gate-decoded entries num j base limit access gran lt ne fits flags =
    let e : GdtEntry = record {
      base_low = base % 2 ^ 16;
      base_middle = base / 2 ^ 16 % 2 ^ 8;
      base_high = base / 2 ^ 24 % 2 ^ 8;
      limit_low = limit % 2 ^ 16;
      granularity = limit / 2 ^ 16 % 2 ^ 4 + gran / 2 ^ 4 % 2 ^ 4 * 2 ^ 4;
      access = access;
    } in
    let found = get_or-set_self entries num e zero_segment lt in
    (
      ap base_of found ∙ omega (arith, fits),
      ap raw_limit found ∙ omega arith,
      ap flags_of found ∙ omega (arith, flags),
      ap (λ (d : GdtEntry). d.access) found,
      get_or-set_ne entries e zero_segment (λ q. ne (sym q)),
    )

-- The code and the data segment of `gdt_init` span the whole address space from 0 on.
gdt_init-flat :
    (entries : List GdtEntry)
    → length entries ≡ 3
    → (base_of (get_or (gdt_init entries) 1 zero_segment) ≡ 0)
      × (last_byte (get_or (gdt_init entries) 1 zero_segment) ≡ 2 ^ 32 - 1)
      × (base_of (get_or (gdt_init entries) 2 zero_segment) ≡ 0)
      × (last_byte (get_or (gdt_init entries) 2 zero_segment) ≡ 2 ^ 32 - 1)
unfolding gdt_init gdt_set_gate base_of last_byte raw_limit flags_of
gdt_init-flat [] len = absurd (omega arith)
gdt_init-flat (a ∷ []) len = absurd (omega arith)
gdt_init-flat (a ∷ b ∷ []) len = absurd (omega arith)
gdt_init-flat (a ∷ b ∷ c ∷ rest) len = (refl, refl, refl, refl)
