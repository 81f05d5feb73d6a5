-- ===== src/Process/Turns.antt =====
-- The tick, the scheduler and sleep of src/process.c, with the switch of src/context_switch.s.
use my_misu_os.Base.{
  ℕ, zero, suc, ◌+◌, ◌%◌, ◌^◌, Bool, not, ◌&&◌, Option, none, some, List, [], ◌∷◌, map, leb, ◌==◌,
  if◌then◌else◌, get_or,
}
use my_misu_os.Process.State.{
  max_processes, ProcState, is_ready_state, is_blocked_state, Process, zero_process, Cpu, Kernel,
  proc, put_proc, find_slot_by_pid,
}
use my_misu_os.Process.Create.{push_all}

-- One round of the loop of `process_tick`.
unfoldable pub wake : ℕ → Process → Process
wake now p =
    if p.in_use && is_blocked_state p.state && not (p.wake_tick == 0) && leb p.wake_tick now
    then record p { state = ProcState.ready; wake_tick = 0 }
    else p

unfoldable pub count_tick : Kernel → Kernel
count_tick k = elim (find_slot_by_pid k k.current_pid) [
  | none ↦ k
  | some slot ↦
      put_proc k slot
        (record (proc k slot) { ticks_used = ((proc k slot).ticks_used + 1) % 2 ^ 32 })
]

unfoldable pub process_tick : Kernel → Kernel
process_tick k = let c = count_tick k in record c { proc_table = map (wake c.tick) c.proc_table }

unfoldable pub process_set_scheduling_enabled : Kernel → Bool → Kernel
process_set_scheduling_enabled k enabled = record k { scheduling_enabled = enabled }

unfoldable pub is_ready : Process → Bool
is_ready p = p.in_use && is_ready_state p.state

-- The loop of `schedule`, with `left` rounds to go, from round `i` on.
unfoldable pub next_from : List Process → ℕ → ℕ → ℕ → Option ℕ
next_from table cur_slot zero i = none
next_from table cur_slot (suc left) i =
    let rest = next_from table cur_slot left (suc i) in
    if is_ready (get_or table ((cur_slot + i) % max_processes) zero_process)
    then some ((cur_slot + i) % max_processes)
    else rest

-- `pushad`: eax, ecx, edx, ebx, the stack pointer before it, ebp, esi and edi.
unfoldable pub pushad : (ℕ → ℕ) → Cpu → (ℕ → ℕ) × ℕ
pushad memory c =
    push_all (c.eax ∷ c.ecx ∷ c.edx ∷ c.ebx ∷ c.esp ∷ c.ebp ∷ c.esi ∷ c.edi ∷ []) (memory, c.esp)

-- `popad; ret` with the stack pointer `sp`.
unfoldable pub popad_ret : (ℕ → ℕ) → ℕ → Cpu
popad_ret memory sp = record {
  edi = memory sp;
  esi = memory ((sp + 4) % 2 ^ 32);
  ebp = memory ((sp + 8) % 2 ^ 32);
  ebx = memory ((sp + 16) % 2 ^ 32);
  edx = memory ((sp + 20) % 2 ^ 32);
  ecx = memory ((sp + 24) % 2 ^ 32);
  eax = memory ((sp + 28) % 2 ^ 32);
  eip = memory ((sp + 32) % 2 ^ 32);
  esp = (sp + 36) % 2 ^ 32;
}

-- `context_switch(&proc_table[slot].saved_esp, new_esp)`
unfoldable pub context_switch : Kernel → ℕ → ℕ → Kernel
context_switch k slot new_esp =
    let (memory, sp) = pushad k.memory k.cpu in
    record (put_proc k slot (record (proc k slot) { saved_esp = sp })) {
      memory = memory;
      cpu = popad_ret memory new_esp;
    }

-- `if (proc_table[cur_slot].state == PROC_RUNNING) proc_table[cur_slot].state = PROC_READY;`
unfoldable pub give_up : Process → Process
give_up p = record p { state = elim p.state [ ProcState.running ↦ ProcState.ready | q ↦ q ] }

-- From the marks on, with both slots.
abbrev pub switch_to : Kernel → ℕ → ℕ → Kernel
switch_to k cur_slot next_slot =
    let a = put_proc k cur_slot (give_up (proc k cur_slot)) in
    let b = put_proc a next_slot (record (proc a next_slot) { state = ProcState.running }) in
    context_switch (record b { current_pid = (proc b next_slot).pid }) cur_slot
      (proc b next_slot).saved_esp

abbrev pub current_slot : Kernel → ℕ
current_slot k = elim (find_slot_by_pid k k.current_pid) [ none ↦ 0 | some slot ↦ slot ]

unfoldable pub schedule : Kernel → Kernel
schedule k =
    if not k.scheduling_enabled
    then k
    else elim (next_from k.proc_table (current_slot k) max_processes 1) [
      | none ↦ k
      | some next_slot ↦
          if next_slot == current_slot k then k else switch_to k (current_slot k) next_slot
    ]

-- `process_sleep` of process 0 or 1 waits in a loop from the tick `start` on.
pub data Sleep : Type 0 where
  busy_wait : ℕ → Sleep
  slept : Kernel → Sleep

unfoldable pub process_sleep : Kernel → ℕ → Sleep
process_sleep k ticks = elim (find_slot_by_pid k k.current_pid) [
  | none ↦ Sleep.busy_wait k.tick
  | some slot ↦
      if leb k.current_pid 1
      then Sleep.busy_wait k.tick
      else Sleep.slept (
          schedule (
            put_proc k slot (record (proc k slot) {
              state = ProcState.blocked;
              wake_tick = (k.tick + ticks) % 2 ^ 32;
            })))
]

unfoldable pub process_yield : Kernel → Kernel
process_yield k = schedule k
