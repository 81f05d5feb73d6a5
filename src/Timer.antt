-- ===== src/Timer.antt =====
-- src/timer.c: the timer interrupt, which counts ticks and preempts the current process every tenth time.
-- `timer_init`, which programs the timer chip, is in Start.
mod Tests
pub mod Counts
pub mod Slices
use my_misu_os.Base.{ℕ, ◌+◌, ◌%◌, ◌^◌, leb, if◌then◌else◌}
use my_misu_os.Process.{Kernel, process_tick, schedule}

abbrev pub time_slice_ticks : ℕ
time_slice_ticks = 10

-- `tick++; slice_counter++; process_tick();`
unfoldable pub count_interrupt : Kernel → Kernel
count_interrupt k =
    process_tick
      (record k { tick = (k.tick + 1) % 2 ^ 32; slice_counter = (k.slice_counter + 1) % 2 ^ 32 })

-- What is done when the slice is over.
unfoldable pub end_slice : Kernel → Kernel
end_slice k =
    if k.scheduling_enabled
    then schedule (record k { slice_counter = 0 })
    else record k { slice_counter = 0 }

unfoldable pub timer_callback : Kernel → Kernel
timer_callback k =
    if leb time_slice_ticks (count_interrupt k).slice_counter
    then end_slice (count_interrupt k)
    else count_interrupt k
