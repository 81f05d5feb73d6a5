-- ===== src/Gdt/Tests.antt =====
-- A descriptor of src/gdt.c for a segment that does not begin at 0.
use my_misu_os.Base.{◌/◌, ◌%◌, ◌^◌, ◌≡◌, List, arith, get_or, replicate}
use my_misu_os.Gdt.{GdtEntry, zero_segment, gdt_set_gate}
use my_misu_os.Gdt.Segments.{base_of, raw_limit, flags_of, gdt_set_gate-decoded}

abbrev table : List GdtEntry
table = replicate 3 zero_segment

gdt_set_gate-decoded_example :
    let after = gdt_set_gate table 1 0x12345678 0xFFFFFFFF 0x9A 0xCF in
    let e = get_or after 1 zero_segment in
    (base_of e ≡ 0x12345678)
    × (raw_limit e ≡ 0xFFFFFFFF % 2 ^ 20)
    × (flags_of e ≡ 0xCF / 2 ^ 4)
    × (e.access ≡ 0x9A)
    × (get_or after 2 zero_segment ≡ get_or table 2 zero_segment)
gdt_set_gate-decoded_example =
    gdt_set_gate-decoded table 1 2 0x12345678 0xFFFFFFFF 0x9A 0xCF (omega arith)
      (λ e. absurd (omega (arith, e))) (omega arith) (omega arith)
