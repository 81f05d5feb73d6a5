-- ===== src/Process/Calls.antt =====
-- The calls of src/process.c that change the process table, in any order.
use my_misu_os.Base.{
  ℕ, ◌+◌, ◌%◌, ◌^◌, ◌<◌, ◌≡◌, refl, ap, subst, ◌∙◌, ◌≢◌, inl, inr, Bool, true, false, Option, none,
  some, List, map, arith, leb, ◌==◌, Bool-cases, Option-cases, get_or, set, length-set, signed32,
  find_from, find_from-some, get_or-set_self,
}
use my_misu_os.Pmm.{pmm_alloc_page}
use my_misu_os.Process.{
  ProcState, Process, Kernel, zero_process, max_processes, proc, put_proc, has_pid,
  find_slot_by_pid, find_free_slot, new_process, process_create, process_create_kernel,
  new_kernel_process, end_process, process_terminate, task_returned, wake, count_tick, process_tick,
  process_set_scheduling_enabled, next_from, pushad, context_switch, give_up, switch_to,
  current_slot, schedule, Sleep, process_sleep, process_yield,
}
use my_misu_os.Process.Table.{
  IsTable, IsValid, IsLess, lower, set-IsTable, map-IsLess, length-map, take_slot, free_inside,
  find_slot_lem,
}

pub data KernelCall : Type 0 where
  create : List ℕ → ℕ → KernelCall
  create_kernel : ℕ → List ℕ → ℕ → KernelCall
  terminate : ℕ → KernelCall
  returned : Option ℕ → KernelCall
  tick : KernelCall
  enable : Bool → KernelCall
  sleep : ℕ → KernelCall
  yield : KernelCall

unfoldable after_sleep : Kernel → Sleep → Kernel
after_sleep k (Sleep.busy_wait start) = k
after_sleep k (Sleep.slept k') = k'

unfoldable pub kernel_call : Kernel → KernelCall → Kernel
unfolding after_sleep
kernel_call k (KernelCall.create name priority) = (process_create k name priority).1
kernel_call k (KernelCall.create_kernel wrapper name fn) =
    (process_create_kernel k wrapper name fn).1
kernel_call k (KernelCall.terminate pid) = (process_terminate k pid).1
kernel_call k (KernelCall.returned slot) = task_returned k slot
kernel_call k KernelCall.tick = process_tick k
kernel_call k (KernelCall.enable b) = process_set_scheduling_enabled k b
kernel_call k (KernelCall.sleep ticks) = after_sleep k (process_sleep k ticks)
kernel_call k KernelCall.yield = process_yield k

same_slot : (p : Process) → IsLess p p
unfolding IsLess
same_slot p = (refl, λ u. u)

context_switch-IsValid :
    (k : Kernel) (slot esp : ℕ) → IsValid k → IsValid (context_switch k slot esp)
unfolding IsValid context_switch IsLess
context_switch-IsValid k slot esp v =
    set-IsTable slot (record (proc k slot) { saved_esp = (pushad k.memory k.cpu).1 }) (refl, λ u. u)
      v

switch_to-IsValid : (k : Kernel) (cur next : ℕ) → IsValid k → IsValid (switch_to k cur next)
unfolding IsValid IsLess give_up
switch_to-IsValid k cur next v =
    let a = set-IsTable cur (give_up (proc k cur)) (refl, λ u. u) v in
    let k' = put_proc k cur (give_up (proc k cur)) in
    let p = record (proc k' next) { state = ProcState.running } in
    let b = set-IsTable next p (refl, λ u. u) a in
    context_switch-IsValid
      (record (put_proc k' next p) { current_pid = (proc (put_proc k' next p) next).pid }) cur
      (proc (put_proc k' next p) next).saved_esp b

pub schedule-IsValid : (k : Kernel) → IsValid k → IsValid (schedule k)
unfolding schedule IsValid
schedule-IsValid k v = elim (Bool-cases k.scheduling_enabled) [
  | inl on ↦ elim (Option-cases (next_from k.proc_table (current_slot k) max_processes 1)) [
    | inl e ↦ rw (schedule, on, e) v
    | inr (n, e) ↦ elim (Bool-cases (n == current_slot k)) [
      | inl same ↦ rw (schedule, on, e, same) v
      | inr other ↦ rw (schedule, on, e, other) (switch_to-IsValid k (current_slot k) n v)
    ]
  ]
  | inr off ↦ rw (schedule, off) v
]

-- A process in a free slot, with the next identifier.
put_new-IsValid :
    (k : Kernel) (slot : ℕ) (p : Process)
    → find_free_slot k ≡ some slot
    → p.pid ≡ k.next_pid
    → k.next_pid + 1 < 2 ^ 32
    → IsValid k
    → IsTable (set k.proc_table slot p) ((k.next_pid + 1) % 2 ^ 32)
unfolding IsValid
put_new-IsValid k slot p found e room v =
    let next : (k.next_pid + 1) % 2 ^ 32 ≡ k.next_pid + 1 = omega arith in
    rw next (take_slot slot p (free_inside k found) e v)

process_create-IsValid :
    (k : Kernel) (name : List ℕ) (priority : ℕ)
    → k.next_pid + 1 < 2 ^ 32
    → IsValid k
    → IsValid (process_create k name priority).1
unfolding IsValid process_create
process_create-IsValid k name priority room v = elim (Option-cases (find_free_slot k)) [
  | inl e ↦ rw (process_create, e) v
  | inr (slot, e) ↦
      rw (process_create, e)
        (put_new-IsValid k slot (new_process k slot name priority) e refl room v)
]

pub process_create_kernel-IsValid :
    (k : Kernel) (wrapper : ℕ) (name : List ℕ) (fn : ℕ)
    → k.next_pid + 1 < 2 ^ 32
    → IsValid k
    → IsValid (process_create_kernel k wrapper name fn).1
unfolding IsValid process_create_kernel
process_create_kernel-IsValid k wrapper name fn room v = elim (Option-cases (find_free_slot k)) [
  | inl e ↦ rw (process_create_kernel, e) v
  | inr (slot, e) ↦ elim (Bool-cases ((pmm_alloc_page k.pmm).0 == 0)) [
    | inl zero_page ↦ rw (process_create_kernel, e, zero_page) v
    | inr page ↦
        rw (process_create_kernel, e, page)
          (put_new-IsValid k slot
            (new_kernel_process k slot name fn (pmm_alloc_page k.pmm).0 wrapper) e refl room v)
  ]
]

end_process-IsValid : (k : Kernel) (slot : ℕ) → IsValid k → IsValid (end_process k slot)
unfolding IsValid IsLess
end_process-IsValid k slot v =
    let p = record (proc k slot) { state = ProcState.terminated; in_use = false } in
    elim (Bool-cases ((proc k slot).kstack == 0)) [
      | inl e ↦ rw e (set-IsTable slot p (refl, λ (u : false ≡ true). absurd (cc)) v)
      | inr e ↦
          rw e
            (set-IsTable slot (record p { kstack = 0 }) (refl, λ (u : false ≡ true). absurd (cc)) v)
    ]

pub process_terminate-IsValid :
    (k : Kernel) (pid : ℕ) → IsValid k → IsValid (process_terminate k pid).1
unfolding IsValid process_terminate
process_terminate-IsValid k pid v = elim (Option-cases (find_slot_by_pid k pid)) [
  | inl e ↦ rw (process_terminate, e) v
  | inr (slot, e) ↦ elim (Bool-cases (leb pid 1)) [
    | inl low ↦ rw (process_terminate, e, low) v
    | inr high ↦ rw (process_terminate, e, high) (end_process-IsValid k slot v)
  ]
]

task_returned-IsValid : (k : Kernel) (p : Option ℕ) → IsValid k → IsValid (task_returned k p)
unfolding IsValid IsLess task_returned
task_returned-IsValid k none v = v
task_returned-IsValid k (some slot) v =
    set-IsTable slot (record (proc k slot) { state = ProcState.terminated; in_use = false })
      (refl, λ u. absurd (cc)) v

count_tick-IsValid : (k : Kernel) → IsValid k → IsValid (count_tick k)
unfolding IsValid IsLess count_tick
count_tick-IsValid k v = elim (Option-cases (find_slot_by_pid k k.current_pid)) [
  | inl e ↦ rw (count_tick, e) v
  | inr (slot, e) ↦
      rw (count_tick, e)
        (set-IsTable slot
          (record (proc k slot) { ticks_used = ((proc k slot).ticks_used + 1) % 2 ^ 32 })
          (refl, λ u. u) v)
]

pub process_tick-IsValid : (k : Kernel) → IsValid k → IsValid (process_tick k)
unfolding IsValid process_tick
process_tick-IsValid k v =
    let t = (count_tick k).proc_table in
    let now = (count_tick k).tick in
    lower (map (wake now) t) (length-map now t) (map-IsLess now t) (count_tick-IsValid k v)

process_sleep-IsValid :
    (k : Kernel) (ticks : ℕ) → IsValid k → IsValid (after_sleep k (process_sleep k ticks))
unfolding IsValid IsLess after_sleep process_sleep
process_sleep-IsValid k ticks v = elim (Option-cases (find_slot_by_pid k k.current_pid)) [
  | inl e ↦ rw (process_sleep, e) v
  | inr (slot, e) ↦ elim (Bool-cases (leb k.current_pid 1)) [
    | inl low ↦ rw (process_sleep, e, low) v
    | inr high ↦
        rw (process_sleep, e, high)
          (schedule-IsValid
            (put_proc k slot (record (proc k slot) {
              state = ProcState.blocked;
              wake_tick = (k.tick + ticks) % 2 ^ 32;
            }))
            (set-IsTable slot
              (record (proc k slot) {
                state = ProcState.blocked;
                wake_tick = (k.tick + ticks) % 2 ^ 32;
              })
              (refl, λ u. u) v))
  ]
]

-- Every call of src/process.c keeps the table of 16 slots with distinct identifiers below the next one,
-- as long as that is below 2^32 - 1.
pub kernel_call-IsValid :
    (k : Kernel) (c : KernelCall) → k.next_pid + 1 < 2 ^ 32 → IsValid k → IsValid (kernel_call k c)
unfolding kernel_call process_yield process_set_scheduling_enabled IsValid
kernel_call-IsValid k (KernelCall.create name priority) room v =
    process_create-IsValid k name priority room v
kernel_call-IsValid k (KernelCall.create_kernel wrapper name fn) room v =
    process_create_kernel-IsValid k wrapper name fn room v
kernel_call-IsValid k (KernelCall.terminate pid) room v = process_terminate-IsValid k pid v
kernel_call-IsValid k (KernelCall.returned slot) room v = task_returned-IsValid k slot v
kernel_call-IsValid k KernelCall.tick room v = process_tick-IsValid k v
kernel_call-IsValid k (KernelCall.enable b) room v = v
kernel_call-IsValid k (KernelCall.sleep ticks) room v = process_sleep-IsValid k ticks v
kernel_call-IsValid k KernelCall.yield room v = schedule-IsValid k v

next_pid-unused : (k : Kernel) → IsValid k → find_slot_by_pid k k.next_pid ≡ none
unfolding IsValid has_pid
next_pid-unused k v = elim (Option-cases (find_slot_by_pid k k.next_pid)) [
  | inl e ↦ e
  | inr (r, e) ↦
      let (n, q, first) = find_from-some (has_pid k.next_pid) 0 k.proc_table zero_process e in
      let hit = first.passes in absurd (ground (arith, v.fresh n))
]

put_new-found :
    (k : Kernel) (slot : ℕ) (p : Process)
    → find_free_slot k ≡ some slot
    → p.pid ≡ k.next_pid
    → p.in_use ≡ true
    → k.next_pid + 1 < 2 ^ 32
    → IsValid k
    → find_from (has_pid k.next_pid) 0 (set k.proc_table slot p) ≡ some slot
put_new-found k slot p free e u room v =
    let lt = free_inside k free in
    let self = get_or-set_self k.proc_table slot p zero_process lt in
    let pid : (get_or (set k.proc_table slot p) slot zero_process).pid ≡ k.next_pid =
      ap (λ (x : Process). x.pid) self ∙ e in
    subst (λ n. find_from (has_pid n) 0 (set k.proc_table slot p) ≡ some slot) pid
      (find_slot_lem slot (put_new-IsValid k slot p free e room v)
        (omega (arith, length-set k.proc_table slot p, lt))
        (ap (λ (x : Process). x.in_use) self ∙ u))

-- A kernel task that finds a free slot and a page for its stack gets the next identifier, by which it is
-- found in that slot, and no other process had it.
pub process_create_kernel-found :
    (k : Kernel) (wrapper : ℕ) (name : List ℕ) (fn slot : ℕ)
    → k.next_pid + 1 < 2 ^ 32
    → IsValid k
    → find_free_slot k ≡ some slot
    → (pmm_alloc_page k.pmm).0 ≢ 0
    → (find_slot_by_pid k k.next_pid ≡ none)
      × ((process_create_kernel k wrapper name fn).0 ≡ signed32 k.next_pid)
      × (find_slot_by_pid (process_create_kernel k wrapper name fn).1 k.next_pid ≡ some slot)
unfolding process_create_kernel
process_create_kernel-found k wrapper name fn slot room v free page =
    let no_zero : ((pmm_alloc_page k.pmm).0 == 0) ≡ false = ground arith in
    (
      next_pid-unused k v,
      rw (process_create_kernel, free, no_zero) refl,
      rw (process_create_kernel, free, no_zero)
          (put_new-found k slot (new_kernel_process k slot name fn (pmm_alloc_page k.pmm).0 wrapper)
            free refl refl room v),
    )
