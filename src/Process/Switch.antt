-- ===== src/Process/Switch.antt =====
-- What src/context_switch.s keeps of a process of src/process.c, and the first switch to a new one.
use my_misu_os.Base.{
  false, some, ◌≢◌, ◌==◌, List, ℕ, ◌+◌, ◌-◌, ◌%◌, ◌^◌, ◌≤◌, ◌<◌, ◌≡◌, refl, ap, ◌∙◌, arith, length,
  get_or-set_self,
}
use my_misu_os.Process.{
  Process, Cpu, Kernel, zero_process, proc, store, down, push_all, push_zeros, first_stack, pushad,
  popad_ret, context_switch, kstack_size, find_free_slot, process_create_kernel, new_kernel_process,
}
use my_misu_os.Process.Table.{free_inside}
use my_misu_os.Pmm.{pmm_alloc_page}

first_stack-popad_ret :
    (memory : ℕ → ℕ) (stack wrapper : ℕ)
    → stack + kstack_size < 2 ^ 32
    → popad_ret (first_stack memory stack wrapper).0 (first_stack memory stack wrapper).1 ≡ record {
      eax = 0;
      ecx = 0;
      edx = 0;
      ebx = 0;
      ebp = 0;
      esi = 0;
      edi = 0;
      esp = stack + kstack_size;
      eip = wrapper;
    }
unfolding popad_ret first_stack push_zeros store down
first_stack-popad_ret memory stack wrapper h = ground arith

-- `popad; ret` reads nothing but the 36 bytes at the stack pointer.
popad_ret-agree :
    (f g : ℕ → ℕ) (sp : ℕ)
    → sp + 36 < 2 ^ 32
    → ((x : ℕ) → sp ≤ x → x < sp + 36 → f x ≡ g x)
    → popad_ret f sp ≡ popad_ret g sp
unfolding popad_ret
popad_ret-agree f g sp fits same =
    let at : (i : ℕ) → i < 36 → f ((sp + i) % 2 ^ 32) ≡ g ((sp + i) % 2 ^ 32) =
      λ i lt. same ((sp + i) % 2 ^ 32) (omega arith) (omega arith) in
    rw
      (
        same sp (omega arith) (omega arith),
        at 4 (omega arith),
        at 8 (omega arith),
        at 16 (omega arith),
        at 20 (omega arith),
        at 24 (omega arith),
        at 28 (omega arith),
        at 32 (omega arith),
      )
      refl

first_stack-sp :
    (memory : ℕ → ℕ) (stack wrapper : ℕ)
    → stack + kstack_size < 2 ^ 32
    → (first_stack memory stack wrapper).1 ≡ stack + kstack_size - 36
unfolding first_stack push_zeros down
first_stack-sp memory stack wrapper fits = omega arith

-- The kernel and the page that `process_create_kernel` leaves.
created-saved_esp :
    (k : Kernel) (wrapper : ℕ) (name : List ℕ) (fn slot : ℕ)
    → find_free_slot k ≡ some slot
    → (pmm_alloc_page k.pmm).0 ≢ 0
    → ((proc (process_create_kernel k wrapper name fn).1 slot).saved_esp
        ≡ (first_stack k.memory (pmm_alloc_page k.pmm).0 wrapper).1)
      × ((process_create_kernel k wrapper name fn).1.memory
          ≡ (first_stack k.memory (pmm_alloc_page k.pmm).0 wrapper).0)
unfolding process_create_kernel
created-saved_esp k wrapper name fn slot free page =
    let no_zero : ((pmm_alloc_page k.pmm).0 == 0) ≡ false = ground arith in
    let p = new_kernel_process k slot name fn (pmm_alloc_page k.pmm).0 wrapper in
    let self = get_or-set_self k.proc_table slot p zero_process (free_inside k free) in
    (
      rw (process_create_kernel, free, no_zero) (ap (λ (x : Process). x.saved_esp) self),
      rw (process_create_kernel, free, no_zero) refl,
    )

-- When a kernel task that found a free slot and a page for its stack is switched to for the first time,
-- from any process, the processor stands at the wrapper, with the stack pointer at the top of the page and
-- the registers 0, if the page ends below 2^32 and its uppermost 36 bytes are still those that
-- `process_create_kernel` left.
pub process_create_kernel-starts :
    (k back : Kernel) (wrapper : ℕ) (name : List ℕ) (fn slot other : ℕ)
    → find_free_slot k ≡ some slot
    → (pmm_alloc_page k.pmm).0 ≢ 0
    → (pmm_alloc_page k.pmm).0 + kstack_size < 2 ^ 32
    → ((x : ℕ)
        → (pmm_alloc_page k.pmm).0 + kstack_size - 36 ≤ x
        → x < (pmm_alloc_page k.pmm).0 + kstack_size
        → (context_switch back other
              (proc (process_create_kernel k wrapper name fn).1 slot).saved_esp).memory
            x
          ≡ (process_create_kernel k wrapper name fn).1.memory x)
    → (context_switch back other
        (proc (process_create_kernel k wrapper name fn).1 slot).saved_esp).cpu
      ≡ record {
        eax = 0;
        ecx = 0;
        edx = 0;
        ebx = 0;
        ebp = 0;
        esi = 0;
        edi = 0;
        esp = (pmm_alloc_page k.pmm).0 + kstack_size;
        eip = wrapper;
      }
unfolding context_switch
process_create_kernel-starts k back wrapper name fn slot other free page fits same =
    let (saved, left) = created-saved_esp k wrapper name fn slot free page in
    let stack = (pmm_alloc_page k.pmm).0 in
    let sp = first_stack-sp k.memory stack wrapper fits in
    let first = first_stack k.memory stack wrapper in
    let agree : popad_ret (pushad back.memory back.cpu).0 (stack + kstack_size - 36)
        ≡ popad_ret first.0 (stack + kstack_size - 36) =
      popad_ret-agree (pushad back.memory back.cpu).0 first.0 (stack + kstack_size - 36)
        (omega (arith, fits)) (λ x lo hi. same x lo (omega (arith, hi)) ∙ ap (λ m. m x) left) in
    rw (saved, sp) (agree ∙ rw⁻¹ sp (first_stack-popad_ret k.memory stack wrapper fits))

pushad-sp :
    (memory : ℕ → ℕ) (c : Cpu) → 36 ≤ c.esp → c.esp + 4 < 2 ^ 32 → (pushad memory c).1 ≡ c.esp - 32
unfolding pushad push_all down
pushad-sp memory c lo hi = omega arith

-- The words that `popad; ret` finds.
pushad-words :
    (memory : ℕ → ℕ) (c : Cpu)
    → 36 ≤ c.esp
    → c.esp + 4 < 2 ^ 32
    → ((pushad memory c).0 (c.esp - 32) ≡ c.edi)
      × ((pushad memory c).0 (c.esp - 28) ≡ c.esi)
      × ((pushad memory c).0 (c.esp - 24) ≡ c.ebp)
      × ((pushad memory c).0 (c.esp - 16) ≡ c.ebx)
      × ((pushad memory c).0 (c.esp - 12) ≡ c.edx)
      × ((pushad memory c).0 (c.esp - 8) ≡ c.ecx)
      × ((pushad memory c).0 (c.esp - 4) ≡ c.eax)
      × ((pushad memory c).0 c.esp ≡ memory c.esp)
unfolding pushad push_all store down
pushad-words memory c lo hi = (
  ground arith,
  ground arith,
  ground arith,
  ground arith,
  ground arith,
  ground arith,
  ground arith,
  ground arith,
)

read_word :
    (f g : ℕ → ℕ) {low high a b v : ℕ}
    → ((x : ℕ) → low ≤ x → x < high → f x ≡ g x)
    → g b ≡ v
    → a ≡ b
    → low ≤ b
    → b < high
    → f a ≡ v
read_word f g {b} same e q lo hi = ap f q ∙ same b lo hi ∙ e

pushad-popad_ret :
    (memory other : ℕ → ℕ) (c : Cpu)
    → 36 ≤ c.esp
    → c.esp + 4 < 2 ^ 32
    → ((x : ℕ) → c.esp - 32 ≤ x → x < c.esp + 4 → other x ≡ (pushad memory c).0 x)
    → popad_ret other (pushad memory c).1 ≡ record c { eip = memory c.esp; esp = c.esp + 4 }
unfolding popad_ret
pushad-popad_ret memory other c lo hi same =
    let (edi, esi, ebp, ebx, edx, ecx, eax, eip) = pushad-words memory c lo hi in
    let sp = pushad-sp memory c lo hi in
    let edi_eq : other (c.esp - 32) ≡ c.edi =
      read_word other (pushad memory c).0 same edi (omega arith) (omega arith) (omega arith) in
    let esi_eq : other ((c.esp - 32 + 4) % 2 ^ 32) ≡ c.esi =
      read_word other (pushad memory c).0 same esi (omega arith) (omega arith) (omega arith) in
    let ebp_eq : other ((c.esp - 32 + 8) % 2 ^ 32) ≡ c.ebp =
      read_word other (pushad memory c).0 same ebp (omega arith) (omega arith) (omega arith) in
    let ebx_eq : other ((c.esp - 32 + 16) % 2 ^ 32) ≡ c.ebx =
      read_word other (pushad memory c).0 same ebx (omega arith) (omega arith) (omega arith) in
    let edx_eq : other ((c.esp - 32 + 20) % 2 ^ 32) ≡ c.edx =
      read_word other (pushad memory c).0 same edx (omega arith) (omega arith) (omega arith) in
    let ecx_eq : other ((c.esp - 32 + 24) % 2 ^ 32) ≡ c.ecx =
      read_word other (pushad memory c).0 same ecx (omega arith) (omega arith) (omega arith) in
    let eax_eq : other ((c.esp - 32 + 28) % 2 ^ 32) ≡ c.eax =
      read_word other (pushad memory c).0 same eax (omega arith) (omega arith) (omega arith) in
    let eip_eq : other ((c.esp - 32 + 32) % 2 ^ 32) ≡ memory c.esp =
      read_word other (pushad memory c).0 same eip (omega arith) (omega arith) (omega arith) in
    let top : (c.esp - 32 + 36) % 2 ^ 32 ≡ c.esp + 4 = omega arith in
    rw (sp, edi_eq, esi_eq, ebp_eq, ebx_eq, edx_eq, ecx_eq, eax_eq, eip_eq, top) refl

-- A process that was switched away from goes on, when any process is switched back to it, with its own
-- registers at the return address of its call of `context_switch`, if the words from its saved stack
-- pointer up to that address are those that it left. Its stack pointer is at least 36 and below
-- 2^32 - 4.
pub context_switch-resumes :
    (k back : Kernel) (slot other new_esp : ℕ)
    → slot < length k.proc_table
    → 36 ≤ k.cpu.esp
    → k.cpu.esp + 4 < 2 ^ 32
    → ((x : ℕ)
        → k.cpu.esp - 32 ≤ x
        → x < k.cpu.esp + 4
        → (context_switch back other (proc (context_switch k slot new_esp) slot).saved_esp).memory x
          ≡ (context_switch k slot new_esp).memory x)
    → (context_switch back other (proc (context_switch k slot new_esp) slot).saved_esp).cpu
      ≡ record k.cpu { eip = k.memory k.cpu.esp; esp = k.cpu.esp + 4 }
unfolding context_switch
context_switch-resumes k back slot other new_esp lt lo hi same =
    let p = record (proc k slot) { saved_esp = (pushad k.memory k.cpu).1 } in
    let e = get_or-set_self k.proc_table slot p zero_process lt in
    let sp : (proc (context_switch k slot new_esp) slot).saved_esp ≡ (pushad k.memory k.cpu).1 =
      ap (λ (q : Process). q.saved_esp) e in
    rw sp (pushad-popad_ret k.memory (pushad back.memory back.cpu).0 k.cpu lo hi same)
