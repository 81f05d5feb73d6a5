-- ===== src/Process/Fairness.antt =====
-- The order of turns that `schedule` of src/process.c gives: no ready process waits for ever.
use my_misu_os.Base.{
  ℕ, zero, suc, ◌+◌, ◌-◌, ◌%◌, ◌≤◌, ◌<◌, ◌≡◌, refl, sym, ◌∙◌, ◌≢◌, inl, inr, true, some, arith, leb,
  leb→le, Bool-cases, length, ap, find_from-some,
}
use native.Mathlib.Decide.{ℕ_discrete}
use my_misu_os.Process.{
  Process, Kernel, max_processes, proc, find_slot_by_pid, has_pid, zero_process, is_ready,
  current_slot, schedule,
}
use my_misu_os.Process.Table.{IsValid, find_slot_lem}
use my_misu_os.Process.Calls.{schedule-IsValid}
use my_misu_os.Process.Schedule.{
  IsNext, IsSwitched, is_ready_at, current_slot_lt, schedule-round_robin,
}

-- The scheduler, called `n` times.
unfoldable pub schedules : ℕ → Kernel → Kernel
schedules zero k = k
schedules (suc n) k = schedules n (schedule k)

ready_used : (p : Process) → is_ready p ≡ true → p.in_use ≡ true
unfolding is_ready
ready_used p h = ground arith

-- After a switch to a process in use, its slot is the current one.
switched-found :
    (k k' : Kernel) (next : ℕ)
    → IsValid k'
    → next < max_processes
    → IsSwitched k k' (current_slot k) next
    → (proc k next).in_use ≡ true
    → find_slot_by_pid k' k'.current_pid ≡ some next
unfolding IsValid
switched-found k k' next v lt s used =
    let found = find_slot_lem next v (omega (arith, v.slots)) (s.next_used ∙ used) in
    let same : k'.current_pid ≡ (proc k' next).pid = s.current ∙ sym s.next_pid in rw same found

found-current :
    (k : Kernel) (slot : ℕ) → find_slot_by_pid k k.current_pid ≡ some slot → current_slot k ≡ slot
found-current k slot e = rw (current_slot, e) refl

-- The slot that is found has the identifier.
found-pid :
    (k : Kernel) (slot : ℕ)
    → find_slot_by_pid k k.current_pid ≡ some slot
    → k.current_pid ≡ (proc k slot).pid
unfolding has_pid
found-pid k slot e =
    let (n, q, first) = find_from-some (has_pid k.current_pid) 0 k.proc_table zero_process e in
    let hit = first.passes in ground (arith, q, hit)

-- How far slot `slot` is ahead of slot `cur` in the circle.
abbrev ahead : ℕ → ℕ → ℕ
ahead cur slot = (slot + max_processes - cur) % max_processes

place :
    (cur slot : ℕ)
    → cur < max_processes
    → slot < max_processes
    → (cur + ahead cur slot) % max_processes ≡ slot
place cur slot lt lt' = omega arith

away : (cur slot : ℕ) → cur < max_processes → slot < max_processes → cur ≢ slot → 1 ≤ ahead cur slot
away cur slot lt lt' ne = elim (ℕ_discrete (ahead cur slot) 0) [
  | yes e ↦ absurd (ne (omega (arith, e)))
  | no more ↦ omega arith
]

nearer :
    (cur slot d : ℕ)
    → cur < max_processes
    → slot < max_processes
    → 1 ≤ d
    → d < ahead cur slot
    → ahead ((cur + d) % max_processes) slot < ahead cur slot
nearer cur slot d lt lt' le l = omega arith

ready-place :
    (k : Kernel) (cur slot : ℕ)
    → cur < max_processes
    → slot < max_processes
    → is_ready (proc k slot) ≡ true
    → is_ready_at k.proc_table cur (ahead cur slot) ≡ true
unfolding is_ready_at
ready-place k cur slot lt lt' ready = rw (place cur slot lt lt') ready

-- The first ready slot of the round is not behind a ready one.
next-le :
    (k : Kernel) (slot d : ℕ)
    → current_slot k < max_processes
    → slot < max_processes
    → current_slot k ≢ slot
    → is_ready (proc k slot) ≡ true
    → IsNext k.proc_table (current_slot k) 1 d
    → d ≤ ahead (current_slot k) slot
next-le k slot d lt lt' ne ready next = elim (Bool-cases (leb d (ahead (current_slot k) slot))) [
  | inl le ↦ leb→le d _ le
  | inr far ↦
      let beyond : ahead (current_slot k) slot < d = ground arith in
      let some_way : 1 ≤ ahead (current_slot k) slot = away (current_slot k) slot lt lt' ne in
      let miss = next.before (ahead (current_slot k) slot) some_way beyond in
      let hit = ready-place k (current_slot k) slot lt lt' ready in absurd (cc (hit, miss))
]

next_ready :
    (k : Kernel) (d : ℕ)
    → IsNext k.proc_table (current_slot k) 1 d
    → is_ready (proc k ((current_slot k + d) % max_processes)) ≡ true
unfolding is_ready_at
next_ready k d next = next.ready

short_way :
    (k : Kernel) (slot d : ℕ)
    → current_slot k < max_processes
    → slot < max_processes
    → (current_slot k + d) % max_processes ≢ slot
    → d ≤ ahead (current_slot k) slot
    → d < ahead (current_slot k) slot
short_way k slot d lt lt' other le = elim (ℕ_discrete d (ahead (current_slot k) slot)) [
  | yes e ↦ absurd (other (rw e (place (current_slot k) slot lt lt')))
  | no less ↦ omega arith
]

valid_slots : (k : Kernel) → IsValid k → length k.proc_table ≡ max_processes
unfolding IsValid
valid_slots k v = v.slots

slot_lt : (k : Kernel) → IsValid k → current_slot k < max_processes
slot_lt k v = current_slot_lt k (valid_slots k v)

-- A process that is ready and at most `bound` places ahead has its turn within `bound` calls.
turn_within :
    (bound : ℕ) (k : Kernel) (slot cur : ℕ)
    → IsValid k
    → k.scheduling_enabled ≡ true
    → find_slot_by_pid k k.current_pid ≡ some cur
    → slot < max_processes
    → is_ready (proc k slot) ≡ true
    → ahead (current_slot k) slot ≤ bound
    → (n : ℕ) × (n ≤ bound) × ((schedules n k).current_pid ≡ (proc k slot).pid)
unfolding schedules
turn_within zero k slot cur v on in_table lt ready near = elim (ℕ_discrete (current_slot k) slot) [
  | yes e ↦ (
    0,
    omega arith,
    found-pid k cur in_table ∙ ap (λ i. (proc k i).pid) (sym (found-current k cur in_table) ∙ e),
  )
  | no ne ↦ (let some_way = away (current_slot k) slot (slot_lt k v) lt ne in absurd (omega arith))
]
turn_within (suc bound) k slot cur v on in_table lt ready near =
    elim (ℕ_discrete (current_slot k) slot) [
      | yes e ↦ (
        0,
        omega arith,
        found-pid k cur in_table
            ∙ ap (λ i. (proc k i).pid) (sym (found-current k cur in_table) ∙ e),
      )
      | no ne ↦ elim (schedule-round_robin k (valid_slots k v) on) [
        | inl (_, quiet) ↦
            let miss =
              quiet (ahead (current_slot k) slot) (away (current_slot k) slot (slot_lt k v) lt ne)
                (omega arith) in
            absurd (cc (miss, ready-place k (current_slot k) slot (slot_lt k v) lt ready))
        | inr (d, l, next, sw) ↦
            let le = next-le k slot d (slot_lt k v) lt ne ready next in
            let next_slot = (current_slot k + d) % max_processes in
            let used = ready_used (proc k next_slot) (next_ready k d next) in
            let found =
              switched-found k (schedule k) next_slot (schedule-IsValid k v) (omega arith) sw
                used in
            elim (ℕ_discrete next_slot slot) [
              | yes e ↦ (1, omega arith, sw.current ∙ ap (λ i. (proc k i).pid) e)
              | no other ↦
                  let short : d < ahead (current_slot k) slot =
                    short_way k slot d (slot_lt k v) lt other le in
                  let closer = nearer (current_slot k) slot d (slot_lt k v) lt next.from short in
                  let kept = sw.others slot (λ q. ne (sym q)) (λ q. other (sym q)) in
                  let still : is_ready (proc (schedule k) slot) ≡ true = rw kept ready in
                  let now = found-current (schedule k) next_slot found in
                  let (n, few, turn) =
                    turn_within bound (schedule k) slot next_slot (schedule-IsValid k v)
                      (sw.enabled ∙ on) found lt still (rw now (omega (arith, closer, near))) in
                  (suc n, omega arith, turn ∙ ap (λ (p : Process). p.pid) kept)
            ]
      ]
    ]

-- With scheduling enabled, a valid table and the current process in it, a process that is ready becomes
-- the current one, by its identifier, after at most 15 calls of `schedule`.
pub schedule-fair :
    (k : Kernel) (slot cur : ℕ)
    → IsValid k
    → k.scheduling_enabled ≡ true
    → find_slot_by_pid k k.current_pid ≡ some cur
    → slot < max_processes
    → is_ready (proc k slot) ≡ true
    → (n : ℕ) × (n < max_processes) × ((schedules n k).current_pid ≡ (proc k slot).pid)
schedule-fair k slot cur v on in_table lt ready =
    let (n, few, turn) = turn_within 15 k slot cur v on in_table lt ready (omega arith) in
    (n, omega arith, turn)
