-- ===== src/Idt.antt =====
-- src/idt.c and src/idt.h: the interrupt descriptor table, the interrupt controllers and the dispatch of
-- interrupts to the handlers that the drivers register. A handler is a value of a type `H`, which
-- the client chooses.
pub mod Gates
pub mod Dispatch
mod Tests
use my_misu_os.Base.{
  ℕ, zero, suc, ◌+◌, ◌-◌, ◌*◌, ◌/◌, ◌%◌, ◌^◌, ◌≤◌, ◌<◌, bit_and, bit_or, bit_xor, min, ◌≡◌, refl,
  sym, ap, ap₂, subst, ◌∙◌, ◌≢◌, ◌↔◌, ◌⊎◌, inl, inr, Bool, true, false, not, ◌&&◌, ◌||◌, Option,
  none, some, List, [], ◌∷◌, ◌++◌, map, arith, ltb, leb, ◌==◌, if◌then◌else◌, ltb→lt, lt→ltb,
  leb→le, ==_iff, ==_self, Bool-cases, Option-cases, all_below, all_below_sound, length, get_or,
  set, take, drop, replicate, at_offset, length-set, get_or-set, set-set, get_or_default,
  length-append, length-take, length-drop, length-replicate, get_or-replicate, take_of_le,
  length-at_offset, drop-at_offset, get_or-at_offset_lt, ℤ, pos, negsuc, pos_part, neg_part, neg,
  sub_ℕ, ◌+ℤ◌, is_neg, ltb_ℤ, eq_ℤ, eq_ℤ_iff, signed32, pattern32, find_from, count_if, IsFirst,
  find_from-some, find_from-none, codes, set_default, get_or-set_all, get_or-replicate_all,
  get_or-set_self, get_or-set_ne, some-eq, set_same, if_all,
}

-- `struct idt_entry`
pub record IdtEntry : Type 0 where
  pub base_low : ℕ
  pub sel : ℕ
  pub always0 : ℕ
  pub flags : ℕ
  pub base_high : ℕ

unfoldable pub zero_gate : IdtEntry
zero_gate = record { base_low = 0; sel = 0; always0 = 0; flags = 0; base_high = 0 }

-- A byte that `outb` sends to a port; `io_wait` is left out.
pub record PortWrite : Type 0 where
  pub port : ℕ
  pub value : ℕ

abbrev pub outb : ℕ → ℕ → PortWrite
outb port value = record { port = port; value = value }

-- The static tables, with `none` for a handler that is NULL, and what was sent to the ports so far, the
-- latest last.
pub record Idt {ℓ} (H : Type ℓ) : Type ℓ where
  pub idt_entries : List IdtEntry
  pub interrupt_handlers : List (Option H)
  pub ports : List PortWrite

-- `num` is a `uint8_t`; the mask 0xFFFF is the remainder by 2^16.
unfoldable pub idt_set_gate : List IdtEntry → ℕ → ℕ → ℕ → ℕ → List IdtEntry
idt_set_gate entries num base sel flags = set entries (num % 2 ^ 8) (record {
  base_low = base % 2 ^ 16;
  base_high = base / 2 ^ 16 % 2 ^ 16;
  sel = sel;
  always0 = 0;
  flags = flags;
})

unfoldable pub register_interrupt_handler {ℓ} : {H : Type ℓ} → Idt H → ℕ → H → Idt H
register_interrupt_handler idt n handler = record idt {
  interrupt_handlers = set idt.interrupt_handlers (n % 2 ^ 8) (some handler);
}

abbrev pub pic_remap : List PortWrite
pic_remap =
    outb 0x20 0x11
    ∷ outb 0xA0 0x11
    ∷ outb 0x21 0x20
    ∷ outb 0xA1 0x28
    ∷ outb 0x21 0x04
    ∷ outb 0xA1 0x02
    ∷ outb 0x21 0x01
    ∷ outb 0xA1 0x01
    ∷ outb 0x21 0x0
    ∷ outb 0xA1 0x0
    ∷ []

-- The calls `idt_set_gate(i, stub, 0x08, 0x8E)` for `n` gates from `i` on.
unfoldable pub set_gates : ℕ → ℕ → (ℕ → ℕ) → List IdtEntry → List IdtEntry
set_gates zero i stub entries = entries
set_gates (suc n) i stub entries =
    set_gates n (i + 1) stub (idt_set_gate entries i (stub i) 0x08 0x8E)

-- `stub i` is the address of `isr<i>` for `i` below 32 and of `irq<i-32>` from there on.
unfoldable pub idt_init {ℓ} : {H : Type ℓ} → Idt H → (ℕ → ℕ) → Idt H
idt_init {H = H} idt stub = record {
  idt_entries = set_gates 48 0 stub (replicate 256 zero_gate);
  interrupt_handlers = replicate {A = Option H} 256 none;
  ports = idt.ports ++ pic_remap;
}

-- What an interrupt comes to: the call of a handler, the kernel panic, which never returns, or nothing.
pub data Reaction {ℓ} (H : Type ℓ) : Type ℓ where
  call : H → Reaction H
  panic : Reaction H
  ignored : Reaction H

-- `isr_handler` with the handler, if any.
unfoldable pub on_exception {ℓ} : {H : Type ℓ} → Option H → ℕ → Reaction H
on_exception (some handler) int_no = Reaction.call handler
on_exception none int_no = if ltb int_no 32 then Reaction.panic else Reaction.ignored

-- The stubs of the gates 0 to 31 call it; no stub calls it with another number.
unfoldable pub isr_handler {ℓ} : {H : Type ℓ} → Idt H → ℕ → Reaction H
isr_handler idt int_no = on_exception (get_or idt.interrupt_handlers int_no none) int_no

-- What `irq_handler` does, in its order: a byte sent to a port, or the call of a handler.
pub data Action {ℓ} (H : Type ℓ) : Type ℓ where
  send : PortWrite → Action H
  invoke : H → Action H

unfoldable pub on_request {ℓ} : {H : Type ℓ} → Option H → List (Action H)
on_request (some handler) = Action.invoke handler ∷ []
on_request none = []

-- `outb(0xA0, 0x20)` from number 40 on
unfoldable pub tell_slave {ℓ} : {H : Type ℓ} → ℕ → List (Action H)
tell_slave int_no = if leb 40 int_no then Action.send (outb 0xA0 0x20) ∷ [] else []

unfoldable pub irq_handler {ℓ} : {H : Type ℓ} → Idt H → ℕ → List (Action H)
irq_handler idt int_no =
    tell_slave int_no
    ++ Action.send (outb 0x20 0x20) ∷ on_request (get_or idt.interrupt_handlers int_no none)
