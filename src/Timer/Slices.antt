-- ===== src/Timer/Slices.antt =====
-- When the timer interrupt of src/timer.c calls the scheduler.
use my_misu_os.Base.{
  Bool, ◌&&◌, if◌then◌else◌, ap, false, if_all, ℕ, zero, suc, ◌+◌, ◌%◌, ◌^◌, ◌≤◌, ◌<◌, ◌≡◌, refl,
  ◌∙◌, inl, inr, arith, leb, ◌==◌, leb→le, Bool-cases,
}
use my_misu_os.Process.{Kernel, schedule}
use my_misu_os.Process.Table.{IsValid}
use my_misu_os.Timer.{time_slice_ticks, count_interrupt, end_slice, timer_callback}
use my_misu_os.Timer.Counts.{
  timer_run, process_tick-counts, schedule-counts, count_interrupt-counts, run-counts,
}

end_slice-enabled : (k : Kernel) → (end_slice k).scheduling_enabled ≡ k.scheduling_enabled
unfolding end_slice
end_slice-enabled k =
    if_all (λ (r : Kernel). r.scheduling_enabled ≡ k.scheduling_enabled) k.scheduling_enabled
      (schedule-counts (record k { slice_counter = 0 })).same_enabled refl

count_interrupt-enabled :
    (k : Kernel) → (count_interrupt k).scheduling_enabled ≡ k.scheduling_enabled
unfolding count_interrupt
count_interrupt-enabled k =
    let same =
      process_tick-counts (record k {
        tick = (k.tick + 1) % 2 ^ 32;
        slice_counter = (k.slice_counter + 1) % 2 ^ 32;
      }) in
    same.same_enabled

callback-enabled : (k : Kernel) → (timer_callback k).scheduling_enabled ≡ k.scheduling_enabled
unfolding timer_callback
callback-enabled k =
    if_all (λ (r : Kernel). r.scheduling_enabled ≡ k.scheduling_enabled)
      (leb time_slice_ticks (count_interrupt k).slice_counter)
      (end_slice-enabled (count_interrupt k) ∙ count_interrupt-enabled k)
      (count_interrupt-enabled k)

-- Whether the interrupt with number `n`, from a counter of `c` on, ends a slice.
unfoldable pub ends_slice : ℕ → ℕ → Bool
ends_slice c n = (c + n) % time_slice_ticks == 0

-- The interrupt behind the first `n`: at the end of a slice the scheduler has its turn, if it is on.
unfoldable pub turn : Kernel → ℕ → Kernel → Kernel
turn k n counted =
    if ends_slice k.slice_counter (suc n) && k.scheduling_enabled
    then schedule (record counted { slice_counter = 0 })
    else record counted { slice_counter = (k.slice_counter + suc n) % time_slice_ticks }

run-enabled : (n : ℕ) (k : Kernel) → (timer_run n k).scheduling_enabled ≡ k.scheduling_enabled
unfolding timer_run
run-enabled zero k = refl
run-enabled (suc n) k = callback-enabled (timer_run n k) ∙ run-enabled n k

callback-turn :
    (n : ℕ) (k k' : Kernel)
    → k'.slice_counter ≡ (k.slice_counter + n) % time_slice_ticks
    → k'.scheduling_enabled ≡ k.scheduling_enabled
    → timer_callback k' ≡ turn k n (count_interrupt k')
unfolding timer_callback turn ends_slice end_slice
callback-turn n k k' c on =
    let (t, count) = count_interrupt-counts k' in
    let on' = count_interrupt-enabled k' ∙ on in
    elim (Bool-cases (leb time_slice_ticks (count_interrupt k').slice_counter)) [
      | inl over ↦
          let full : 10 ≤ (count_interrupt k').slice_counter = leb→le 10 _ over in
          let zero_eq : (k.slice_counter + suc n) % time_slice_ticks ≡ 0 =
            omega (arith, c, count, full) in
          elim (Bool-cases k.scheduling_enabled) [
            | inl on'' ↦ simp (over, on', zero_eq, on'') refl
            | inr off ↦ simp (over, on', zero_eq, off) refl
          ]
      | inr going ↦
          let part : (count_interrupt k').slice_counter < 10 = ground arith in
          let same : (count_interrupt k').slice_counter
              ≡ (k.slice_counter + suc n) % time_slice_ticks =
            omega (arith, c, count, part) in
          let more : ((k.slice_counter + suc n) % time_slice_ticks == 0) ≡ false =
            ground (arith, c, count, same) in
          rw (going, more) (ap (λ m. record (count_interrupt k') { slice_counter = m }) same)
    ]

-- After `n` interrupts from a valid state in which the slice counter is below 10 and the tick below
-- 2^32: the tick has gone up by `n`, modulo 2^32, the slice counter has gone round by `n`, and the
-- process table is still valid. The next interrupt counts, wakes the sleepers, and then calls `schedule`
-- with a new slice exactly if it makes the slice counter a multiple of 10 and scheduling is enabled.
pub timer_run-counts :
    (n : ℕ) (k : Kernel)
    → IsValid k
    → k.tick < 2 ^ 32
    → k.slice_counter < time_slice_ticks
    → ((timer_run n k).tick ≡ (k.tick + n) % 2 ^ 32)
      × ((timer_run n k).slice_counter ≡ (k.slice_counter + n) % time_slice_ticks)
      × IsValid (timer_run n k)
      × (timer_run (suc n) k ≡ turn k n (count_interrupt (timer_run n k)))
unfolding timer_run
timer_run-counts n k v t c =
    let (e, f, w) = run-counts n k v t c in
    (e, f, w, callback-turn n k (timer_run n k) f (run-enabled n k))
