-- ===== src/Start/Tests.antt =====
-- src/kernel.c on a machine of 128 MB.
use my_misu_os.Base.{◌+◌, ◌*◌, ◌≡◌, refl, []}
use my_misu_os.Syscall.Tests.{typed, typed-IsRing, dark, dark_len}
use my_misu_os.Syscall.Sound.{IsSound}
use my_misu_os.Shell.{perform}
use my_misu_os.Shell.Sound.{Ends}
use my_misu_os.Start.{Machine, Loaded, kernel_main, banner, go_online}
use my_misu_os.Start.Boot.{IsLoaded, IsWired, kernel_main-IsSound}

abbrev loaded : Loaded
loaded = record {
  magic = 0x2BADB002;
  mbi = record { flags = 0; mem_lower = 640; mem_upper = 130048; mmap = [] };
  kernel_end = 0x120000;
  stub = λ i. 0x100000 + 16 * i;
}

abbrev machine : Machine
machine = record {
  system = record typed {
    fs = record { nodes = []; fd_table = []; current_dir = 0 };
    terminal = dark;
  };
  gdt = [];
  idt = record { idt_entries = []; interrupt_handlers = []; ports = [] };
}

machine-IsLoaded : IsLoaded machine
machine-IsLoaded = record { root = refl; keyboard = typed-IsRing; cells = dark_len }

kernel_main-IsSound_example :
    IsSound (kernel_main loaded machine).system
    × ((kernel_main loaded machine).system.kernel.next_pid ≡ 2)
    × Ends
        (perform ((kernel_main loaded machine).system, banner (kernel_main loaded machine).system))
    × IsSound (go_online (kernel_main loaded machine)).system
    × IsWired (kernel_main loaded machine).idt
kernel_main-IsSound_example = kernel_main-IsSound loaded machine machine-IsLoaded
