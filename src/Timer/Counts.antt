-- ===== src/Timer/Counts.antt =====
-- The counters of src/timer.c after any number of interrupts, and the processes under them.
use my_misu_os.Base.{
  if_all, ℕ, zero, suc, ◌+◌, ◌%◌, ◌^◌, ◌≤◌, ◌<◌, ◌≡◌, refl, ◌∙◌, inl, inr, arith, leb, ◌==◌, leb→le,
  Bool-cases, Option-cases,
}
use my_misu_os.Process.{
  Kernel, process_tick, count_tick, schedule, find_slot_by_pid, next_from, context_switch,
  current_slot, max_processes,
}
use my_misu_os.Process.Table.{IsValid}
use my_misu_os.Process.Calls.{schedule-IsValid, process_tick-IsValid}
use my_misu_os.Timer.{time_slice_ticks, count_interrupt, end_slice, timer_callback}

unfoldable pub timer_run : ℕ → Kernel → Kernel
timer_run zero k = k
timer_run (suc n) k = timer_callback (timer_run n k)

pub record SameCounts (k' k : Kernel) : Type 0 where
  pub same_tick : k'.tick ≡ k.tick
  pub same_slice : k'.slice_counter ≡ k.slice_counter
  pub same_enabled : k'.scheduling_enabled ≡ k.scheduling_enabled

pub process_tick-counts : (k : Kernel) → SameCounts (process_tick k) k
unfolding process_tick count_tick
process_tick-counts k = elim (Option-cases (find_slot_by_pid k k.current_pid)) [
  | inl e ↦ record {
    same_tick = rw (count_tick, e) refl;
    same_slice = rw (count_tick, e) refl;
    same_enabled = rw (count_tick, e) refl;
  }
  | inr (slot, e) ↦ record {
    same_tick = rw (count_tick, e) refl;
    same_slice = rw (count_tick, e) refl;
    same_enabled = rw (count_tick, e) refl;
  }
]

pub schedule-counts : (k : Kernel) → SameCounts (schedule k) k
unfolding schedule context_switch
schedule-counts k = elim (Bool-cases k.scheduling_enabled) [
  | inl on ↦ elim (Option-cases (next_from k.proc_table (current_slot k) max_processes 1)) [
    | inl e ↦ record {
      same_tick = simp (schedule, on, e) refl;
      same_slice = simp (schedule, on, e) refl;
      same_enabled = simp (schedule, on, e) refl;
    }
    | inr (n, e) ↦ elim (Bool-cases (n == current_slot k)) [
      | inl same ↦ record {
        same_tick = simp (schedule, on, e, same) refl;
        same_slice = simp (schedule, on, e, same) refl;
        same_enabled = simp (schedule, on, e, same) refl;
      }
      | inr other ↦ record {
        same_tick = simp (schedule, on, e, other) refl;
        same_slice = simp (schedule, on, e, other) refl;
        same_enabled = simp (schedule, on, e, other) refl;
      }
    ]
  ]
  | inr off ↦ record {
    same_tick = simp (schedule, off) refl;
    same_slice = simp (schedule, off) refl;
    same_enabled = simp (schedule, off) refl;
  }
]

pub count_interrupt-counts :
    (k : Kernel)
    → ((count_interrupt k).tick ≡ (k.tick + 1) % 2 ^ 32)
      × ((count_interrupt k).slice_counter ≡ (k.slice_counter + 1) % 2 ^ 32)
unfolding count_interrupt
count_interrupt-counts k =
    let same =
      process_tick-counts (record k {
        tick = (k.tick + 1) % 2 ^ 32;
        slice_counter = (k.slice_counter + 1) % 2 ^ 32;
      }) in
    (same.same_tick, same.same_slice)

pub end_slice-counts :
    (k : Kernel) → ((end_slice k).tick ≡ k.tick) × ((end_slice k).slice_counter ≡ 0)
unfolding end_slice
end_slice-counts k =
    let same = schedule-counts (record k { slice_counter = 0 }) in
    if_all (λ (r : Kernel). (r.tick ≡ k.tick) × (r.slice_counter ≡ 0)) k.scheduling_enabled
      (same.same_tick, same.same_slice) (refl, refl)

callback-counts :
    (k : Kernel)
    → k.slice_counter < time_slice_ticks
    → ((timer_callback k).tick ≡ (k.tick + 1) % 2 ^ 32)
      × ((timer_callback k).slice_counter ≡ (k.slice_counter + 1) % time_slice_ticks)
unfolding timer_callback
callback-counts k lt =
    let (t, c) = count_interrupt-counts k in
    elim (Bool-cases (leb time_slice_ticks (count_interrupt k).slice_counter)) [
      | inl over ↦
          let (t', c') = end_slice-counts (count_interrupt k) in
          let full : 10 ≤ (count_interrupt k).slice_counter = leb→le 10 _ over in
          (
            rw (timer_callback, over) (t' ∙ t),
            rw (timer_callback, over) (c' ∙ (omega (arith, c, lt, full))),
          )
      | inr going ↦
          let part : (count_interrupt k).slice_counter < 10 = ground arith in
          (rw (timer_callback, going) t, rw (timer_callback, going) (omega (arith, c, lt, part)))
    ]

pub callback-tick : (k : Kernel) → (timer_callback k).tick ≡ (k.tick + 1) % 2 ^ 32
unfolding timer_callback
callback-tick k =
    let (t, c) = count_interrupt-counts k in
    let (t', c') = end_slice-counts (count_interrupt k) in
    if_all (λ (r : Kernel). r.tick ≡ (k.tick + 1) % 2 ^ 32)
      (leb time_slice_ticks (count_interrupt k).slice_counter) (t' ∙ t) t

end_slice-IsValid : (k : Kernel) → IsValid k → IsValid (end_slice k)
unfolding end_slice IsValid
end_slice-IsValid k v =
    if_all IsValid k.scheduling_enabled (schedule-IsValid (record k { slice_counter = 0 }) v) v

pub timer_callback-IsValid : (k : Kernel) → IsValid k → IsValid (timer_callback k)
unfolding timer_callback IsValid count_interrupt
timer_callback-IsValid k v =
    let w : IsValid (count_interrupt k) =
      process_tick-IsValid
        (record k { tick = (k.tick + 1) % 2 ^ 32; slice_counter = (k.slice_counter + 1) % 2 ^ 32 })
        v in
    elim (Bool-cases (leb time_slice_ticks (count_interrupt k).slice_counter)) [
      | inl over ↦ rw (timer_callback, over) (end_slice-IsValid (count_interrupt k) w)
      | inr going ↦ rw (timer_callback, going) w
    ]

pub run-counts :
    (n : ℕ) (k : Kernel)
    → IsValid k
    → k.tick < 2 ^ 32
    → k.slice_counter < time_slice_ticks
    → ((timer_run n k).tick ≡ (k.tick + n) % 2 ^ 32)
      × ((timer_run n k).slice_counter ≡ (k.slice_counter + n) % time_slice_ticks)
      × IsValid (timer_run n k)
unfolding timer_run
run-counts zero k v t c = (omega arith, omega arith, v)
run-counts (suc n) k v t c =
    let (e, f, w) = run-counts n k v t c in
    let lt : (timer_run n k).slice_counter < time_slice_ticks = omega arith in
    let (g, h) = callback-counts (timer_run n k) lt in
    (omega arith, omega arith, timer_callback-IsValid (timer_run n k) w)
