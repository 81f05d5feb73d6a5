-- ===== src/Idt/Dispatch.antt =====
-- Which handler an interrupt reaches, in src/idt.c, after any registrations.
use my_misu_os.Base.{
  ℕ, ◌%◌, ◌^◌, ◌<◌, ◌≡◌, refl, subst, ◌∙◌, Option, none, some, List, [], ◌∷◌, ◌++◌, map, leb, arith,
  ◌==◌, if◌then◌else◌, Bool-cases, inl, inr, lt→ltb, length, get_or, set, get_or-set_self,
  get_or-set_ne, length-set, length-replicate, get_or-replicate_all,
}
use my_misu_os.Idt.{
  PortWrite, outb, Idt, call, panic, Action, send, invoke, register_interrupt_handler, idt_init,
  on_exception, on_request, tell_slave, isr_handler, irq_handler,
}

-- The registrations of the drivers, the latest first.
unfoldable pub registered {ℓ} : {H : Type ℓ} → List (ℕ × H) → Idt H → Idt H
registered [] idt = idt
registered ((n, h) ∷ earlier) idt = register_interrupt_handler (registered earlier idt) n h

-- The handler that was registered last for an interrupt, if any; the number is a byte.
unfoldable pub latest {ℓ} : {H : Type ℓ} → List (ℕ × H) → ℕ → Option H
latest [] i = none
latest ((n, h) ∷ earlier) i = let rest = latest earlier i in if n % 2 ^ 8 == i then some h else rest

length-registered {ℓ} :
    {H : Type ℓ} (regs : List (ℕ × H)) (idt : Idt H)
    → length (registered regs idt).interrupt_handlers ≡ length idt.interrupt_handlers
unfolding registered register_interrupt_handler
length-registered [] idt = refl
length-registered ((n, h) ∷ earlier) idt =
    length-set (registered earlier idt).interrupt_handlers (n % 2 ^ 8) (some h)
    ∙ length-registered earlier idt

registered-latest {ℓ} :
    {H : Type ℓ} (regs : List (ℕ × H)) (idt : Idt H) (stub : ℕ → ℕ) (i : ℕ)
    → get_or (registered regs (idt_init idt stub)).interrupt_handlers i none ≡ latest regs i
unfolding registered latest register_interrupt_handler idt_init
registered-latest {H = H} [] idt stub i =
    get_or-replicate_all {A = Option H} (λ h. h ≡ none) 256 i none none refl refl
registered-latest {H = H} ((n, h) ∷ earlier) idt stub i =
    let before = registered earlier (idt_init idt stub) in
    let len : length before.interrupt_handlers ≡ 256 =
      length-registered earlier (idt_init idt stub) ∙ length-replicate {A = Option H} 256 none in
    elim (Bool-cases (n % 2 ^ 8 == i)) [
      | inl e ↦
          let q : n % 2 ^ 8 ≡ i = ground (arith, e) in
          rw (latest, e)
            (subst
              (λ j. get_or (set before.interrupt_handlers (n % 2 ^ 8) (some h)) j none ≡ some h) q
              (get_or-set_self before.interrupt_handlers (n % 2 ^ 8) (some h) none
                (omega (arith, len))))
      | inr e ↦
          rw (latest, e)
            (get_or-set_ne before.interrupt_handlers (some h) none (λ q. ground (arith, e, q))
              ∙ registered-latest earlier idt stub i)
    ]

-- The handlers among some actions.
unfoldable pub invoked {ℓ} : {H : Type ℓ} → List (Action H) → List H
invoked [] = []
invoked (send w ∷ rest) = invoked rest
invoked (invoke h ∷ rest) = h ∷ invoked rest

-- The bytes sent to the ports among some actions.
unfoldable pub sent {ℓ} : {H : Type ℓ} → List (Action H) → List PortWrite
sent [] = []
sent (send w ∷ rest) = w ∷ sent rest
sent (invoke h ∷ rest) = sent rest

-- A request is answered: the controllers that had a part in it are told first, the second one for the
-- numbers from 40 on, then the handler is called, if there is one.
pub record IsAnswered {ℓ} {H : Type ℓ} (i : ℕ) (handler : Option H) (acts : List (Action H))
    : Type ℓ where
  pub calls : invoked acts ≡ elim handler [ none ↦ [] | some h ↦ h ∷ [] ]
  pub ends :
      sent acts ≡ (if leb 40 i then outb 0xA0 0x20 ∷ outb 0x20 0x20 ∷ [] else outb 0x20 0x20 ∷ [])
  pub order : acts ≡ map send (sent acts) ++ map invoke (invoked acts)

answered {ℓ} :
    {H : Type ℓ} (i : ℕ) (handler : Option H)
    → IsAnswered i handler (tell_slave i ++ send (outb 0x20 0x20) ∷ on_request handler)
unfolding tell_slave on_request invoked sent
answered i none = elim (Bool-cases (leb 40 i)) [
  | inl e ↦ record { calls = rw e refl; ends = rw e refl; order = rw e refl }
  | inr e ↦ record { calls = rw e refl; ends = rw e refl; order = rw e refl }
]
answered i (some h) = elim (Bool-cases (leb 40 i)) [
  | inl e ↦ record { calls = rw e refl; ends = rw e refl; order = rw e refl }
  | inr e ↦ record { calls = rw e refl; ends = rw e refl; order = rw e refl }
]

excepted {ℓ} :
    {H : Type ℓ} (x : ℕ) (handler : Option H)
    → x < 32
    → on_exception handler x ≡ elim handler [ none ↦ panic | some h ↦ call h ]
unfolding on_exception
excepted x none lt = rw (lt→ltb x 32 lt) refl
excepted x (some h) lt = refl

-- After `idt_init` and any registrations, an exception, whose number is below 32, and a request of a
-- device each call the handler that was registered last for their number, and no other. An exception
-- without one is a panic. For a request the controllers are told before that.
pub registered-called {ℓ} :
    {H : Type ℓ} (regs : List (ℕ × H)) (idt : Idt H) (stub : ℕ → ℕ) (x i : ℕ)
    → x < 32
    → (isr_handler (registered regs (idt_init idt stub)) x
        ≡ elim (latest regs x) [ none ↦ panic | some h ↦ call h ])
      × IsAnswered i (latest regs i) (irq_handler (registered regs (idt_init idt stub)) i)
unfolding isr_handler irq_handler
registered-called regs idt stub x i lt = (
  rw (registered-latest regs idt stub x) (excepted x (latest regs x) lt),
  rw (registered-latest regs idt stub i) (answered i (latest regs i)),
)
