-- ===== src/Idt/Gates.antt =====
-- The gates that `idt_init` of src/idt.c leaves.
use my_misu_os.Base.{
  ℕ, zero, suc, ◌+◌, ◌*◌, ◌/◌, ◌%◌, ◌^◌, ◌≤◌, ◌<◌, ◌≡◌, refl, ◌∙◌, ◌⊎◌, inl, inr, Option, none,
  List, arith, length, get_or, replicate, length-set, length-replicate, get_or-replicate_all,
  get_or-set_self, get_or-set_ne,
}
use native.Mathlib.Decide.{ℕ_discrete}
use my_misu_os.Idt.{IdtEntry, zero_gate, Idt, idt_set_gate, set_gates, idt_init}

-- The address that the processor jumps to through a gate.
unfoldable pub target : IdtEntry → ℕ
target e = e.base_low + e.base_high * 2 ^ 16

-- A present 32-bit interrupt gate of ring 0 in the kernel's code segment.
pub record IsKernelGate (e : IdtEntry) (address : ℕ) : Type 0 where
  pub target_eq : target e ≡ address
  pub sel_eq : e.sel ≡ 0x08
  pub flags_eq : e.flags ≡ 0x8E
  pub always0_eq : e.always0 ≡ 0

length-set_gates :
    (n i : ℕ) (stub : ℕ → ℕ) (entries : List IdtEntry)
    → length (set_gates n i stub entries) ≡ length entries
unfolding set_gates idt_set_gate
length-set_gates zero i stub entries = refl
length-set_gates (suc n) i stub entries =
    length-set_gates n (i + 1) stub (idt_set_gate entries i (stub i) 0x08 0x8E)
    ∙ length-set entries (i % 2 ^ 8) _

set_gates-outside :
    (n i : ℕ) (stub : ℕ → ℕ) (entries : List IdtEntry) (j : ℕ)
    → i + n ≤ 256
    → (j < i) ⊎ (i + n ≤ j)
    → get_or (set_gates n i stub entries) j zero_gate ≡ get_or entries j zero_gate
unfolding set_gates idt_set_gate
set_gates-outside zero i stub entries j le out = refl
set_gates-outside (suc n) i stub entries j le out =
    set_gates-outside n (i + 1) stub (idt_set_gate entries i (stub i) 0x08 0x8E) j (omega arith)
      (ground arith)
    ∙ get_or-set_ne entries _ zero_gate (λ e. ground arith)

set_gates-inside :
    (n i : ℕ) (stub : ℕ → ℕ) (entries : List IdtEntry) (j : ℕ)
    → i + n ≤ 256
    → length entries ≡ 256
    → i ≤ j
    → j < i + n
    → stub j < 2 ^ 32
    → IsKernelGate (get_or (set_gates n i stub entries) j zero_gate) (stub j)
unfolding set_gates idt_set_gate target
set_gates-inside zero i stub entries j le len lo hi fits = absurd (omega arith)
set_gates-inside (suc n) i stub entries j le len lo hi fits =
    let gate : IdtEntry = record {
      base_low = stub i % 2 ^ 16;
      base_high = stub i / 2 ^ 16 % 2 ^ 16;
      sel = 0x08;
      always0 = 0;
      flags = 0x8E;
    } in
    elim (ℕ_discrete i j) [
      | yes e ↦
          let at : i % 2 ^ 8 ≡ j = omega (arith, e) in
          let found : get_or (set_gates (suc n) i stub entries) j zero_gate ≡ gate =
            set_gates-outside n (i + 1) stub (idt_set_gate entries i (stub i) 0x08 0x8E) j
              (omega arith) (inl (omega arith))
            ∙ rw at (get_or-set_self entries j gate zero_gate (omega (arith, len))) in
          rw found (record {
            target_eq = rw e (omega (arith, fits));
            sel_eq = refl;
            flags_eq = refl;
            always0_eq = refl;
          })
      | no ne ↦
          set_gates-inside n (i + 1) stub (idt_set_gate entries i (stub i) 0x08 0x8E) j
            (omega arith) (length-set entries (i % 2 ^ 8) gate ∙ len) (omega arith) (omega arith)
            fits
    ]

pub idt_init-unused {ℓ} :
    {H : Type ℓ} (idt : Idt H) (stub : ℕ → ℕ) (j : ℕ)
    → 48 ≤ j
    → get_or (idt_init idt stub).idt_entries j zero_gate ≡ zero_gate
unfolding idt_init
idt_init-unused idt stub j le =
    set_gates-outside 48 0 stub (replicate 256 zero_gate) j (omega arith) (inr (omega arith))
    ∙ get_or-replicate_all (λ e. e ≡ zero_gate) 256 j zero_gate zero_gate refl refl

-- After `idt_init` each of the gates 0 to 47 is an interrupt gate of the kernel whose two halves give the
-- address of its stub, if that is a 32-bit address, every gate from 48 on is empty, that of the system
-- calls, 128, among them, and no handler is registered.
pub idt_init-gates {ℓ} :
    {H : Type ℓ} (idt : Idt H) (stub : ℕ → ℕ) (i j n : ℕ)
    → i < 48
    → stub i < 2 ^ 32
    → 48 ≤ j
    → IsKernelGate (get_or (idt_init idt stub).idt_entries i zero_gate) (stub i)
      × (get_or (idt_init idt stub).idt_entries j zero_gate ≡ zero_gate)
      × (get_or (idt_init idt stub).interrupt_handlers n none ≡ none)
unfolding idt_init
idt_init-gates {H = H} idt stub i j n lt fits le =
    let empty = replicate 256 zero_gate in
    (
      set_gates-inside 48 0 stub empty i (omega arith) (length-replicate 256 zero_gate)
          (omega arith) (omega arith) fits,
      idt_init-unused idt stub j le,
      get_or-replicate_all {A = Option H} (λ h. h ≡ none) 256 n none none refl refl,
    )
