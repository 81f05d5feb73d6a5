-- ===== src/Syscall/Sleep.antt =====
-- How long `sys_sleep` of src/syscall.c waits, and what it keeps true.
use my_misu_os.Base.{
  ℕ, zero, suc, ◌+◌, ◌-◌, ◌%◌, ◌^◌, ◌<◌, ◌≡◌, refl, ◌∙◌, arith, ltb, lt→ltb, if_all, pos,
}
use my_misu_os.Process.{Kernel}
use my_misu_os.Process.Table
use my_misu_os.Timer.{timer_callback}
use my_misu_os.Timer.Counts.{callback-tick, timer_callback-IsValid}
use my_misu_os.Syscall.{System, sleep_until, sys_sleep}
use my_misu_os.Syscall.Sound.{IsSound}

sleep_until-IsValid :
    (left start ticks : ℕ) (k : Kernel)
    → Table.IsValid k
    → Table.IsValid (sleep_until left start ticks k)
unfolding sleep_until
sleep_until-IsValid zero start ticks k v = v
sleep_until-IsValid (suc left) start ticks k v =
    if_all Table.IsValid (ltb ((k.tick + 2 ^ 32 - start) % 2 ^ 32) ticks)
      (sleep_until-IsValid left start ticks (timer_callback k) (timer_callback-IsValid k v)) v

pub sys_sleep-IsSound : (s : System) (ticks : ℕ) → IsSound s → IsSound (sys_sleep s ticks).system
unfolding sys_sleep
sys_sleep-IsSound s ticks v = record {
  fs = v.fs;
  kernel = sleep_until-IsValid ticks s.kernel.tick ticks s.kernel v.kernel;
  keyboard = v.keyboard;
  terminal = v.terminal;
}

-- With as many rounds as ticks are missing, the loop waits for exactly these.
sleep_until-tick :
    (left start ticks waited : ℕ) (k : Kernel)
    → waited + left ≡ ticks
    → ticks < 2 ^ 32
    → start < 2 ^ 32
    → k.tick ≡ (start + waited) % 2 ^ 32
    → (sleep_until left start ticks k).tick ≡ (start + ticks) % 2 ^ 32
unfolding sleep_until
sleep_until-tick zero start ticks waited k all fits fits' now = omega arith
sleep_until-tick (suc left) start ticks waited k all fits fits' now =
    let short : (k.tick + 2 ^ 32 - start) % 2 ^ 32 < ticks = omega (arith, all, fits, fits', now) in
    rw (lt→ltb _ ticks short) (
      sleep_until-tick left start ticks (suc waited) (timer_callback k) (omega (arith, all)) fits
        fits' (callback-tick k ∙ omega (arith, now)))

-- A call of `sys_sleep` returns 0 when exactly as many ticks have passed as it was asked for.
pub sys_sleep-waits :
    (s : System) (ticks : ℕ)
    → ticks < 2 ^ 32
    → s.kernel.tick < 2 ^ 32
    → ((sys_sleep s ticks).result ≡ pos 0)
      × ((sys_sleep s ticks).system.kernel.tick ≡ (s.kernel.tick + ticks) % 2 ^ 32)
unfolding sys_sleep
sys_sleep-waits s ticks fits fits' = (
  refl,
  sleep_until-tick ticks s.kernel.tick ticks 0 s.kernel (omega arith) fits fits' (omega arith),
)
