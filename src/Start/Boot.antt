-- ===== src/Start/Boot.antt =====
-- The state that `kernel_main` of src/kernel.c hands to the shell.
use my_misu_os.Base.{
  ℕ, zero, suc, ◌*◌, ◌<◌, ◌≡◌, refl, true, false, arith, ◌==◌, length, get_or, none, some, [], ◌∷◌,
  get_or-replicate_all, if_all,
}
use my_misu_os.Fs.Reachable.{fs_init-IsValid}
use my_misu_os.Idt.{
  Idt, zero_gate, register_interrupt_handler, idt_init, irq_handler, tell_slave, on_request,
}
use my_misu_os.Idt.Dispatch.{invoked}
use my_misu_os.Idt.Gates.{idt_init-unused}
use my_misu_os.Keyboard.Ring.{IsRing}
use my_misu_os.Process.{
  Kernel, Process, zero_process, proc, process_init, process_set_scheduling_enabled,
}
use my_misu_os.Process.Table
use my_misu_os.Process.Table.{IsTable, IsValid}
use my_misu_os.Pmm.Init.{pmm_init}
use my_misu_os.Start.{mount}
use my_misu_os.Syscall.Sound.{IsSound}
use my_misu_os.Shell.{perform}
use my_misu_os.Shell.Sound.{Ends, perform-Ends}
use my_misu_os.Vga.{vga_width, vga_height}
use my_misu_os.Vga.Screen.{IsScreen}
use my_misu_os.Vga.Printing.{initialize-IsScreen}
use my_misu_os.Start.{
  Driver, timer_callback, keyboard_callback, syscall_handler, Machine, Loaded, on_kernel, log_ok,
  syscall_init, keyboard_init, timer_init, start_tables, start_drivers, start_memory, kernel_main,
  banner, go_online,
}

init_in_use :
    (k : Kernel) (i : ℕ)
    → (proc (process_init k) i).in_use ≡ true
    → ((proc (process_init k) i).pid ≡ i) × (i < 2)
unfolding process_init zero_process
init_in_use k zero u = (refl, omega arith)
init_in_use k (suc zero) u = (refl, omega arith)
init_in_use k (suc (suc i)) u = absurd (
    cc (
      u,
      get_or-replicate_all (λ (p : Process). p.in_use ≡ false) 14 i zero_process zero_process refl
          refl,
    ))

init-IsTable : (k : Kernel) → IsTable (process_init k).proc_table 2
unfolding process_init
init-IsTable k = record {
  slots = refl;
  fresh = λ i u. (let (e, l) = init_in_use k i u in omega arith);
  distinct = λ i j u v q.
      let (e, l) = init_in_use k i u in let (e', l') = init_in_use k j v in omega (arith, e, e', q);
}

-- The static variables are 0 and the video memory has its cells, when the kernel is entered.
pub record IsLoaded (m : Machine) : Type 0 where
  pub root : m.system.fs.current_dir ≡ 0
  pub keyboard : IsRing m.system.keyboard
  pub cells : length m.system.terminal.buffer ≡ vga_height * vga_width

-- Before `fs_init`.
record IsStarted (m : Machine) : Type 0 where
  root : m.system.fs.current_dir ≡ 0
  kernel : Table.IsValid m.system.kernel
  next_eq : m.system.kernel.next_pid ≡ 2
  keyboard : IsRing m.system.keyboard
  terminal : IsScreen m.system.terminal

drivers-IsStarted :
    (l : Loaded) (m : Machine) → IsLoaded m → IsStarted (start_drivers (start_tables l m))
unfolding start_drivers start_tables log_ok syscall_init timer_init keyboard_init process_init
    IsValid
drivers-IsStarted l m v = record {
  root = v.root;
  kernel = init-IsTable m.system.kernel;
  next_eq = refl;
  keyboard = v.keyboard;
  terminal = initialize-IsScreen m.system.terminal v.cells;
}

memory-IsSound :
    (l : Loaded) (m : Machine)
    → IsStarted m
    → IsSound (start_memory l m).system × ((start_memory l m).system.kernel.next_pid ≡ 2)
unfolding start_memory mount log_ok IsValid
memory-IsSound l m v =
    let mapped = on_kernel m (λ k. record k { pmm = pmm_init l.mbi l.kernel_end }) in
    let sound : (m' : Machine)
        → IsStarted m'
        → IsSound (mount m').system × ((mount m').system.kernel.next_pid ≡ 2) =
      λ m' v'. (
        record {
          fs = fs_init-IsValid m'.system.fs m'.system.kernel.tick v'.root;
          kernel = v'.kernel;
          keyboard = v'.keyboard;
          terminal = v'.terminal;
        },
        v'.next_eq,
      ) in
    if_all (λ (m' : Machine). IsSound (mount m').system × ((mount m').system.kernel.next_pid ≡ 2))
      (l.magic == 0x2BADB002)
      (sound mapped (record {
        root = v.root;
        kernel = v.kernel;
        next_eq = v.next_eq;
        keyboard = v.keyboard;
        terminal = v.terminal;
      }))
      (sound m v)

-- The clock and the keyboard call their handlers. That of the system calls is registered under the number
-- 128, but no gate leads there.
pub record IsWired (idt : Idt Driver) : Type 0 where
  pub clock : invoked (irq_handler idt 32) ≡ timer_callback ∷ []
  pub keys : invoked (irq_handler idt 33) ≡ keyboard_callback ∷ []
  pub calls : get_or idt.interrupt_handlers 128 none ≡ some syscall_handler
  pub no_gate : get_or idt.idt_entries 128 zero_gate ≡ zero_gate

drivers-IsWired : (l : Loaded) (m : Machine) → IsWired (start_drivers (start_tables l m)).idt
unfolding start_drivers start_tables log_ok syscall_init timer_init keyboard_init idt_init
    register_interrupt_handler irq_handler tell_slave on_request invoked
drivers-IsWired l m = record {
  clock = refl;
  keys = refl;
  calls = refl;
  no_gate = idt_init-unused m.idt l.stub 128 (omega arith);
}

kernel_main-IsWired : (l : Loaded) (m : Machine) → IsWired (kernel_main l m).idt
unfolding kernel_main start_memory mount log_ok
kernel_main-IsWired l m =
    let wired = drivers-IsWired l m in
    if_all (λ (m' : Machine). IsWired (mount m').idt) (l.magic == 0x2BADB002) wired wired

-- When the kernel is loaded with its static variables 0, `kernel_main` hands a sound system to the shell,
-- with process identifier 2 the next, whatever the boot loader says of the memory; the system is still
-- sound after the title was shown, and when the scheduler is on. Interrupt 32 calls the clock's handler and
-- 33 the keyboard's. The dispatch of the system calls is registered under 128, but gate 128 is empty.
pub kernel_main-IsSound :
    (l : Loaded) (m : Machine)
    → IsLoaded m
    → IsSound (kernel_main l m).system
      × ((kernel_main l m).system.kernel.next_pid ≡ 2)
      × Ends (perform ((kernel_main l m).system, banner (kernel_main l m).system))
      × IsSound (go_online (kernel_main l m)).system
      × IsWired (kernel_main l m).idt
unfolding kernel_main go_online log_ok process_set_scheduling_enabled IsValid
kernel_main-IsSound l m v =
    let (sound, next) =
      memory-IsSound l (start_drivers (start_tables l m)) (drivers-IsStarted l m v) in
    (
      sound,
      next,
      perform-Ends _ sound,
      record {
        fs = sound.fs;
        kernel = sound.kernel;
        keyboard = sound.keyboard;
        terminal = sound.terminal;
      },
      kernel_main-IsWired l m,
    )
