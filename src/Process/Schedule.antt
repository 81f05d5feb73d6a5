-- ===== src/Process/Schedule.antt =====
-- Which process `schedule` of src/process.c switches to.
use my_misu_os.Process.{pushad}
use my_misu_os.Base.{
  ℕ, zero, suc, ◌+◌, ◌%◌, ◌≤◌, ◌<◌, ◌≡◌, refl, sym, ap, subst, ◌∙◌, ◌≢◌, ◌⊎◌, inl, inr, Bool, true,
  false, none, some, List, arith, ◌==◌, Bool-cases, Option-cases, length, get_or, set, length-set,
  find_from-some, get_or-set_self, get_or-set_ne,
}
use my_misu_os.Process.{
  ProcState, Process, Kernel, zero_process, max_processes, proc, put_proc, find_slot_by_pid,
  has_pid, is_ready, next_from, context_switch, give_up, switch_to, current_slot, schedule,
}

-- The slot `d` places behind `cur`, in the order in which the scheduler looks.
unfoldable pub is_ready_at : List Process → ℕ → ℕ → Bool
is_ready_at table cur d = is_ready (get_or table ((cur + d) % max_processes) zero_process)

-- The first slot of the round that is ready, from place `i` on.
pub record IsNext (table : List Process) (cur : ℕ) (i d : ℕ) : Type 0 where
  pub from : i ≤ d
  pub ready : is_ready_at table cur d ≡ true
  pub before : (e : ℕ) → i ≤ e → e < d → is_ready_at table cur e ≡ false

next_from-some :
    (table : List Process) (cur left i : ℕ) {n : ℕ}
    → next_from table cur left i ≡ some n
    → (d : ℕ) × (n ≡ (cur + d) % max_processes) × (d < i + left) × IsNext table cur i d
unfolding next_from is_ready_at
next_from-some table cur zero i h = absurd (cc)
next_from-some table cur (suc left) i {n} h = elim (Bool-cases (is_ready_at table cur i)) [
  | inl hit ↦ (
    i,
    ground arith,
    omega arith,
    record { from = omega arith; ready = hit; before = λ e le lt. absurd (omega arith) },
  )
  | inr miss ↦
      let (d, q, lt, next) = next_from-some table cur left (suc i) {n = n} (ground arith) in
      (
        d,
        q,
        omega arith,
        record {
          from = omega (arith, next.from);
          ready = next.ready;
          before = λ e le lt. elim (Bool-cases (i == e)) [
            | inl same ↦ (let q : i ≡ e = ground arith in rw⁻¹ q miss)
            | inr other ↦ next.before e (ground arith) lt
          ];
        },
      )
]

next_from-none :
    (table : List Process) (cur left i d : ℕ)
    → next_from table cur left i ≡ none
    → i ≤ d
    → d < i + left
    → is_ready_at table cur d ≡ false
unfolding next_from is_ready_at
next_from-none table cur zero i d h le lt = absurd (omega arith)
next_from-none table cur (suc left) i d h le lt = elim (Bool-cases (is_ready_at table cur i)) [
  | inl hit ↦ absurd (ground arith)
  | inr miss ↦ elim (Bool-cases (i == d)) [
    | inl same ↦ (let q : i ≡ d = ground arith in rw⁻¹ q miss)
    | inr other ↦
        next_from-none table cur left (suc i) d (ground arith) (ground arith) (omega arith)
  ]
]

pub current_slot_lt :
    (k : Kernel) → length k.proc_table ≡ max_processes → current_slot k < max_processes
current_slot_lt k len = elim (Option-cases (find_slot_by_pid k k.current_pid)) [
  | inl e ↦ rw (current_slot, e) (omega arith)
  | inr (r, e) ↦
      let (n, q, first) = find_from-some (has_pid k.current_pid) 0 k.proc_table zero_process e in
      rw (current_slot, e) (omega (arith, q, first.inside))
]

-- What a switch from slot `cur` to slot `next` leaves.
pub record IsSwitched (k k' : Kernel) (cur next : ℕ) : Type 0 where
  pub current : k'.current_pid ≡ (proc k next).pid
  pub running : (proc k' next).state ≡ ProcState.running
  pub waiting : (proc k cur).state ≡ ProcState.running → (proc k' cur).state ≡ ProcState.ready
  pub others : (i : ℕ) → i ≢ cur → i ≢ next → proc k' i ≡ proc k i
  pub next_pid : (proc k' next).pid ≡ (proc k next).pid
  pub next_used : (proc k' next).in_use ≡ (proc k next).in_use
  pub enabled : k'.scheduling_enabled ≡ k.scheduling_enabled

switch_to-IsSwitched :
    (k : Kernel) (cur next : ℕ)
    → cur < length k.proc_table
    → next < length k.proc_table
    → cur ≢ next
    → IsSwitched k (switch_to k cur next) cur next
unfolding context_switch give_up
switch_to-IsSwitched k cur next lt lt' ne =
    let a = give_up (proc k cur) in
    let k₁ = put_proc k cur a in
    let b = record (proc k₁ next) { state = ProcState.running } in
    let k₂ = put_proc k₁ next b in
    let c = record (proc k₂ cur) { saved_esp = (pushad k.memory k.cpu).1 } in
    let inside₁ : next < length k₁.proc_table = omega (arith, length-set k.proc_table cur a, lt') in
    let inside₂ : cur < length k₂.proc_table =
      omega (arith, length-set k₁.proc_table next b, length-set k.proc_table cur a, lt) in
    let first : proc k₁ next ≡ proc k next = get_or-set_ne k.proc_table a zero_process ne in
    let second : proc k₂ next ≡ b = get_or-set_self k₁.proc_table next b zero_process inside₁ in
    let kept : proc k₂ cur ≡ a =
      get_or-set_ne k₁.proc_table b zero_process (λ q. ne (sym q))
      ∙ get_or-set_self k.proc_table cur a zero_process lt in
    let third : get_or (set k₂.proc_table cur c) next zero_process ≡ b =
      get_or-set_ne k₂.proc_table c zero_process ne ∙ second in
    let last : get_or (set k₂.proc_table cur c) cur zero_process ≡ c =
      get_or-set_self k₂.proc_table cur c zero_process inside₂ in
    record {
      current = ap (λ (q : Process). q.pid) (second) ∙ ap (λ (q : Process). q.pid) first;
      next_pid = ap (λ (q : Process). q.pid) third ∙ ap (λ (q : Process). q.pid) first;
      next_used = ap (λ (q : Process). q.in_use) third ∙ ap (λ (q : Process). q.in_use) first;
      enabled = refl;
      running = ap (λ (q : Process). q.state) third;
      waiting = λ h.
          ap (λ (q : Process). q.state) last
          ∙ ap (λ (q : Process). q.state) kept
          ∙ rw (give_up, h) refl;
      others = λ i n m.
          get_or-set_ne k₂.proc_table c zero_process (λ q. n (sym q))
          ∙ get_or-set_ne k₁.proc_table b zero_process (λ q. m (sym q))
          ∙ get_or-set_ne k.proc_table a zero_process (λ q. n (sym q));
    }

schedule-stays :
    (k : Kernel)
    → k.scheduling_enabled ≡ true
    → next_from k.proc_table (current_slot k) max_processes 1 ≡ none
    → schedule k ≡ k
unfolding schedule
schedule-stays k on e = simp (schedule, on, e) refl

schedule-stays_self :
    (k : Kernel) (n : ℕ)
    → k.scheduling_enabled ≡ true
    → next_from k.proc_table (current_slot k) max_processes 1 ≡ some n
    → (n == current_slot k) ≡ true
    → schedule k ≡ k
unfolding schedule
schedule-stays_self k n on e same = simp (schedule, on, e, same) refl

schedule-switches :
    (k : Kernel) (n : ℕ)
    → k.scheduling_enabled ≡ true
    → next_from k.proc_table (current_slot k) max_processes 1 ≡ some n
    → (n == current_slot k) ≡ false
    → schedule k ≡ switch_to k (current_slot k) n
unfolding schedule
schedule-switches k n on e other = simp (schedule, on, e, other) refl

whole_round :
    (cur d n : ℕ)
    → cur < max_processes
    → 1 ≤ d
    → d < 1 + max_processes
    → n ≡ (cur + d) % max_processes
    → (n == cur) ≡ true
    → d ≡ max_processes
whole_round cur d n lt le l q same = (let e : n ≡ cur = ground arith in omega arith)

part_round :
    (cur d n : ℕ)
    → cur < max_processes
    → 1 ≤ d
    → d < 1 + max_processes
    → n ≡ (cur + d) % max_processes
    → (n == cur) ≡ false
    → (d < max_processes) × (cur ≢ n) × (n < max_processes)
part_round cur d n lt le l q other =
    let ne : cur ≢ n = λ e. absurd (ground arith) in
    let short : d ≢ max_processes = λ e. ne (omega arith) in (omega arith, ne, omega arith)

-- With scheduling enabled and a table of 16 slots, `schedule` changes nothing if no other slot is ready.
-- Otherwise it goes to the first ready slot behind that of the current process, in a circle: that process
-- runs and is the current one, the one before it is ready if it was running, and the other slots stay.
pub schedule-round_robin :
    (k : Kernel)
    → length k.proc_table ≡ max_processes
    → k.scheduling_enabled ≡ true
    → ((schedule k ≡ k)
        × ((d : ℕ)
            → 1 ≤ d
            → d < max_processes
            → is_ready_at k.proc_table (current_slot k) d ≡ false))
      ⊎ (d : ℕ) × (d < max_processes)
        × IsNext k.proc_table (current_slot k) 1 d
        × IsSwitched k (schedule k) (current_slot k) ((current_slot k + d) % max_processes)
schedule-round_robin k len on =
    let lt = current_slot_lt k len in
    elim (Option-cases (next_from k.proc_table (current_slot k) max_processes 1)) [
      | inl e ↦ inl (
        schedule-stays k on e,
        λ d le l. next_from-none k.proc_table (current_slot k) max_processes 1 d e le (omega arith),
      )
      | inr (n, e) ↦
          let (d, q, l, next) = next_from-some k.proc_table (current_slot k) max_processes 1 e in
          elim (Bool-cases (n == current_slot k)) [
            | inl same ↦
                let full = whole_round (current_slot k) d n lt next.from l q same in
                inl (schedule-stays_self k n on e same, λ i le li. next.before i le (omega arith))
            | inr other ↦
                let (short, ne, below) = part_round (current_slot k) d n lt next.from l q other in
                inr (
                  d,
                  short,
                  next,
                  subst
                      (λ k'.
                        IsSwitched k k' (current_slot k) ((current_slot k + d) % max_processes))
                      (sym (schedule-switches k n on e other))
                      (rw⁻¹ q
                        (switch_to-IsSwitched k (current_slot k) n (omega arith) (omega arith) ne)),
                )
          ]
    ]
