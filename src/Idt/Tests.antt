-- ===== src/Idt/Tests.antt =====
-- The interrupts of src/idt.c with the stubs 16 bytes apart, and a handler for the clock.
use my_misu_os.Base.{ℕ, ◌+◌, ◌*◌, ◌≡◌, refl, none, some, List, [], ◌∷◌, arith, get_or}
use my_misu_os.Idt.{zero_gate, Idt, call, panic, idt_init, isr_handler, irq_handler}
use my_misu_os.Idt.Gates.{IsKernelGate, idt_init-gates}
use my_misu_os.Idt.Dispatch.{registered, latest, IsAnswered, registered-called}

abbrev at_boot : Idt ℕ
at_boot = record { idt_entries = []; interrupt_handlers = []; ports = [] }

abbrev stub : ℕ → ℕ
stub i = 0x100000 + 16 * i

idt_init-gates_example :
    IsKernelGate (get_or (idt_init at_boot stub).idt_entries 33 zero_gate) (stub 33)
    × (get_or (idt_init at_boot stub).idt_entries 48 zero_gate ≡ zero_gate)
    × (get_or (idt_init at_boot stub).interrupt_handlers 33 none ≡ none)
idt_init-gates_example =
    idt_init-gates at_boot stub 33 48 33 (omega arith) (omega arith) (omega arith)

-- The clock's handler is replaced by another, and the handler 9 is for the second controller.
abbrev drivers : List (ℕ × ℕ)
drivers = (32, 8) ∷ (40, 9) ∷ (32, 7) ∷ []

registered-called_example :
    (isr_handler (registered drivers (idt_init at_boot stub)) 13
      ≡ elim (latest drivers 13) [ none ↦ panic | some h ↦ call h ])
    × IsAnswered 40
        (latest drivers 40)
        (irq_handler (registered drivers (idt_init at_boot stub)) 40)
registered-called_example = registered-called drivers at_boot stub 13 40 (omega arith)

last_wins : latest drivers 32 ≡ some 8
unfolding latest
last_wins = refl
