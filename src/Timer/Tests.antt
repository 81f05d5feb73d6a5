-- ===== src/Timer/Tests.antt =====
-- The timer of src/timer.c with the two processes that exist after `process_init`.
use my_misu_os.Base.{◌+◌, ◌%◌, ◌^◌, ◌≡◌, refl, arith}
use my_misu_os.Process.{process_init}
use my_misu_os.Process.Table.{IsValid}
use my_misu_os.Process.Tests.{two-IsValid, two}
use my_misu_os.Timer.{time_slice_ticks, count_interrupt}
use my_misu_os.Timer.Counts.{timer_run}
use my_misu_os.Timer.Slices.{turn, timer_run-counts}

two_tick : two.tick ≡ 12
unfolding process_init
two_tick = refl

two_slice : two.slice_counter ≡ 0
unfolding process_init
two_slice = refl

timer_run-counts_example :
    ((timer_run 25 two).tick ≡ (two.tick + 25) % 2 ^ 32)
    × ((timer_run 25 two).slice_counter ≡ (two.slice_counter + 25) % time_slice_ticks)
    × IsValid (timer_run 25 two)
    × (timer_run 26 two ≡ turn two 25 (count_interrupt (timer_run 25 two)))
timer_run-counts_example =
    timer_run-counts 25 two two-IsValid (omega (arith, two_tick)) (omega (arith, two_slice))
