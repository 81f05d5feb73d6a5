-- ===== src/Start.antt =====
-- src/kernel.c: the order in which `kernel_main` sets up the parts of the kernel, and what it shows.
pub mod Boot
mod Tests
use my_misu_os.Base.{
  ℕ, zero, suc, ◌+◌, ◌-◌, ◌*◌, ◌/◌, ◌%◌, ◌^◌, ◌≤◌, ◌<◌, bit_and, bit_or, bit_xor, min, ◌≡◌, refl,
  sym, ap, ap₂, subst, ◌∙◌, ◌≢◌, ◌↔◌, ◌⊎◌, inl, inr, Bool, true, false, not, ◌&&◌, ◌||◌, Option,
  none, some, List, [], ◌∷◌, ◌++◌, map, arith, ltb, leb, ◌==◌, if◌then◌else◌, ltb→lt, lt→ltb,
  leb→le, ==_iff, ==_self, Bool-cases, Option-cases, all_below, all_below_sound, length, get_or,
  set, take, drop, replicate, at_offset, length-set, get_or-set, set-set, get_or_default,
  length-append, length-take, length-drop, length-replicate, get_or-replicate, take_of_le,
  length-at_offset, drop-at_offset, get_or-at_offset_lt, ℤ, pos, negsuc, pos_part, neg_part, neg,
  sub_ℕ, ◌+ℤ◌, is_neg, ltb_ℤ, eq_ℤ, eq_ℤ_iff, signed32, pattern32, find_from, count_if, IsFirst,
  find_from-some, find_from-none, codes, set_default, get_or-set_all, get_or-replicate_all,
  get_or-set_self, get_or-set_ne, some-eq, set_same, if_all,
}
use my_misu_os.Fs.Boot.{fs_init, mymisu_version}
use my_misu_os.Fs.Named.{fs_get_file_count, fs_get_dir_count}
use my_misu_os.Gdt.{GdtEntry, gdt_init}
use my_misu_os.Idt.{Idt, PortWrite, outb, idt_init, register_interrupt_handler}
use my_misu_os.Klog.{Klog, KlogLevel, klog, klog_init}
use my_misu_os.Pmm.{pmm_get_free_pages, pmm_get_total_memory_kb}
use my_misu_os.Pmm.Init.{MultibootInfo, pmm_init}
use my_misu_os.Process.{Kernel, process_init, process_set_scheduling_enabled}
use my_misu_os.Vga.{
  vga_light_cyan, vga_dark_grey, vga_light_grey, vga_light_green, terminal_initialize,
}
use my_misu_os.Syscall.{System}
use my_misu_os.Shell.{Output, say, tint, clear, pager, fg, decimal, perform}

-- The handlers that the drivers register.
pub data Driver : Type 0 where
  timer_callback keyboard_callback syscall_handler : Driver

pub record Machine : Type 0 where
  pub system : System
  pub gdt : List GdtEntry
  pub idt : Idt Driver

-- What the boot loader and the linker give: the contents of EAX, the information of the boot loader, the
-- end of the kernel and the stubs of the interrupts.
pub record Loaded : Type 0 where
  pub magic : ℕ
  pub mbi : MultibootInfo
  pub kernel_end : ℕ
  pub stub : ℕ → ℕ

abbrev pub on_kernel : Machine → (Kernel → Kernel) → Machine
on_kernel m f = record m { system = record m.system { kernel = f m.system.kernel } }

-- `klog(KLOG_OK, msg)`
unfoldable pub log_ok : Machine → List ℕ → Machine
log_ok m msg = on_kernel m (λ k. record k { log = klog k.log k.tick KlogLevel.ok_level msg })

unfoldable pub syscall_init : Machine → Machine
syscall_init m = record m { idt = register_interrupt_handler m.idt 128 Driver.syscall_handler }

unfoldable pub keyboard_init : Machine → Machine
keyboard_init m = record m { idt = register_interrupt_handler m.idt 33 Driver.keyboard_callback }

-- The three bytes that program the clock.
unfoldable pub timer_init : Machine → ℕ → Machine
timer_init m frequency =
    let divisor = 1193180 / frequency in
    let idt = register_interrupt_handler m.idt 32 Driver.timer_callback in
    record m {
      idt = record idt {
        ports =
            idt.ports
            ++ outb 0x43 0x36
              ∷ outb 0x40 (divisor % 2 ^ 8)
              ∷ outb 0x40 (divisor / 2 ^ 8 % 2 ^ 8)
              ∷ [];
      };
    }

-- Up to the registration of the system calls.
unfoldable pub start_tables : Loaded → Machine → Machine
start_tables l m =
    let shown = record m {
      system = record m.system { terminal = terminal_initialize m.system.terminal };
    } in
    let fresh = on_kernel shown (λ k. record k { log = klog_init }) in
    let segments =
      log_ok (record fresh { gdt = gdt_init fresh.gdt }) (codes "GDT loaded - 5 segments") in
    let gates =
      log_ok (record segments { idt = idt_init segments.idt l.stub })
        (codes "IDT installed - 256 vectors, PIC remapped to 32-47") in
    log_ok (syscall_init gates) (codes "Syscalls registered - 19 calls via int 0x80")

unfoldable pub start_drivers : Machine → Machine
start_drivers m =
    let processes =
      log_ok (on_kernel m process_init) (codes "Process subsystem initialized - 16 slots") in
    let clock = log_ok (timer_init processes 100) (codes "Timer started - PIT 8253 at 100Hz") in
    log_ok (keyboard_init clock) (codes "PS/2 keyboard ready")

unfoldable pub mount : Machine → Machine
mount m =
    log_ok (record m { system = record m.system { fs = fs_init m.system.fs m.system.kernel.tick } })
      (codes "Ramdisk filesystem mounted")

-- `if (magic == 0x2BADB002) pmm_init(mbi);` and the ramdisk.
unfoldable pub start_memory : Loaded → Machine → Machine
start_memory l m = mount (
    if l.magic == 0x2BADB002
    then on_kernel m (λ k. record k { pmm = pmm_init l.mbi l.kernel_end })
    else m)

-- `kernel_main` up to `sti`.
unfoldable pub kernel_main : Loaded → Machine → Machine
kernel_main l m = start_memory l (start_drivers (start_tables l m))

-- What stands on the screen after the login.
unfoldable pub banner : System → List Output
banner s =
    clear
    ∷ say (codes "\n\n")
    ∷ fg vga_light_cyan
    ∷ say (codes "                              MyMisu OS\n")
    ∷ fg vga_dark_grey
    ∷ say (codes "                    bare-metal x86 operating system\n\n")
    ∷ fg vga_light_cyan
    ∷ say (codes "  +--------------------------------------------------------------+\n")
    ∷ say (codes "  |  System Status                                               |\n")
    ∷ say (codes "  +--------------------------------------------------------------+\n")
    ∷ fg vga_light_grey
    ∷ fg vga_light_green
    ∷ say (codes "     [OK]  ")
    ∷ fg vga_light_grey
    ∷ say (codes "GDT loaded\n")
    ∷ fg vga_light_green
    ∷ say (codes "     [OK]  ")
    ∷ fg vga_light_grey
    ∷ say (codes "IDT installed (256 vectors, PIC remapped to 32-47)\n")
    ∷ fg vga_light_green
    ∷ say (codes "     [OK]  ")
    ∷ fg vga_light_grey
    ∷ say (codes "Timer @ 100Hz (PIT 8253)\n")
    ∷ fg vga_light_green
    ∷ say (codes "     [OK]  ")
    ∷ fg vga_light_grey
    ∷ say (codes "PS/2 keyboard ready\n")
    ∷ fg vga_light_green
    ∷ say (codes "     [OK]  ")
    ∷ fg vga_light_grey
    ∷ say (
        codes "Memory       "
        ++ decimal (pmm_get_total_memory_kb s.kernel.pmm)
        ++ codes " KB ("
        ++ decimal (pmm_get_free_pages s.kernel.pmm)
        ++ codes " free pages)\n")
    ∷ fg vga_light_green
    ∷ say (codes "     [OK]  ")
    ∷ fg vga_light_grey
    ∷ say (
        codes "Ramdisk      "
        ++ decimal (fs_get_file_count s.fs)
        ++ codes " files, "
        ++ decimal (fs_get_dir_count s.fs)
        ++ codes " dirs (16 fds available)\n")
    ∷ fg vga_light_green
    ∷ say (codes "     [OK]  ")
    ∷ fg vga_light_grey
    ∷ say (codes "Syscalls     19 registered (int 0x80)\n")
    ∷ fg vga_light_green
    ∷ say (codes "     [OK]  ")
    ∷ fg vga_light_grey
    ∷ say (codes "Scheduler    round-robin, 100ms slice (preemptive)\n")
    ∷ say (codes "\n")
    ∷ fg vga_light_cyan
    ∷ say (codes "                          |\\---/|\n")
    ∷ say (codes "                          | ,_, |\n")
    ∷ say (codes "                           \\_`_/-..--.\n")
    ∷ say (codes "                        ___/ `   ' ,+ \\\n")
    ∷ say (codes "                       (__...'  _/  |`._;\n")
    ∷ say (codes "                         (_,..'(_,.`__)\n")
    ∷ fg vga_dark_grey
    ∷ say (
        codes "\n                                                         "
        ++ mymisu_version
        ++ codes "\n")
    ∷ fg vga_light_grey
    ∷ []

-- The end of `kernel_main`, before the shell runs.
unfoldable pub go_online : Machine → Machine
go_online m =
    log_ok (on_kernel m (λ k. process_set_scheduling_enabled k true))
      (codes "Scheduler online - round-robin preemptive 100ms")
