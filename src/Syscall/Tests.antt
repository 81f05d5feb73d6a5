-- ===== src/Syscall/Tests.antt =====
-- A system call of src/syscall.c on the kernel with its two first processes.
use my_misu_os.Base.{◌==◌}
use my_misu_os.Base.{◌+◌}
use my_misu_os.Base.{◌∷◌}
use my_misu_os.Keyboard.{Keyboard}
use my_misu_os.Base.{◌≡◌, refl, false, [], arith, pos}
use my_misu_os.Process.{proc, process_init, zero_process}
use my_misu_os.Process.Tests.{two}
use my_misu_os.Syscall.{System, sys_kill, sys_exit}
use my_misu_os.Base.{replicate, signed32, count_if, length, List, ◌++◌, some, ℕ}
use my_misu_os.Keyboard.Ring.{IsRing, contents, window}
use my_misu_os.Syscall.{sys_read, answer}
use my_misu_os.Base.{none, take, ◌*◌, length-replicate}
use my_misu_os.Fs.{Fs}
use my_misu_os.Fs.Boot.{fs_init}
use my_misu_os.Fs.Reachable.{fs_init-IsValid}
use my_misu_os.Process.Tests.{two-IsValid}
use my_misu_os.Syscall.{sys_write, Registers, User, syscall_handler}
use my_misu_os.Syscall.Sound.{IsSound, Returns}
use my_misu_os.Syscall.Keeps.{syscall_handler-IsSound}
use my_misu_os.Syscall.Screen.{printed_red, sys_write-Shows}
use my_misu_os.Vga.Paper.{Shows, print_all}
use my_misu_os.Vga.Printing.{blank, initialize-IsScreen, initialize-Shows, initialize-pager}
use my_misu_os.Vga.{vga_width, vga_height, Terminal, terminal_initialize}
use my_misu_os.Syscall.Lines.{fill, sys_read-line}
use my_misu_os.Syscall.Protect.{sys_kill-protects}

abbrev pub dark : Terminal
dark = record {
  row = 0;
  column = 0;
  color = 0;
  buffer = replicate 2000 0;
  pager_enabled = false;
  pager_lines = 0;
  cursor = 0;
}

abbrev screen : Terminal
screen = terminal_initialize dark

pub dark_len : length dark.buffer ≡ vga_height * vga_width
dark_len = length-replicate {A = ℕ} 2000 0

abbrev small : System
small = record {
  kernel = two;
  fs = record { nodes = []; fd_table = []; current_dir = 0 };
  keyboard = record {
    kb_buffer = [];
    kb_read = 0;
    kb_write = 0;
    shift_pressed = false;
    caps_lock = false;
    extended = false;
  };
  terminal = screen;
}

shell_pid : (proc two 1).pid ≡ 1
unfolding process_init zero_process
shell_pid = refl

sys_kill-protects_example :
    (proc (sys_kill small (pos 1)).system.kernel 1 ≡ proc small.kernel 1)
    × (proc (sys_exit small (pos 0)).system.kernel 1 ≡ proc small.kernel 1)
    × ((sys_kill small (pos 1)).system.fs ≡ small.fs)
    × ((sys_exit small (pos 0)).system.fs ≡ small.fs)
sys_kill-protects_example = sys_kill-protects small (pos 1) (pos 0) 1 (omega (arith, shell_pid))

abbrev hi : List ℕ
hi = 104 ∷ 105 ∷ []

-- "hi" and a newline have been typed.
abbrev pub typed : System
typed = record small {
  keyboard = record {
    kb_buffer = 104 ∷ 105 ∷ 10 ∷ replicate 253 0;
    kb_read = 0;
    kb_write = 3;
    shift_pressed = false;
    caps_lock = false;
    extended = false;
  };
}

pub typed-IsRing : IsRing typed.keyboard
typed-IsRing = record { buffer_len = refl; read_lt = omega arith; write_lt = omega arith }

typed-contents : contents typed.keyboard ≡ hi ++ 10 ∷ []
unfolding contents window
typed-contents = refl

hi_plain : count_if (λ c. c == 10) hi ≡ 0
unfolding count_if
hi_plain = refl

sys_read-line_example :
    (k' : Keyboard) × (sys_read typed (pos 0) (some (replicate 8 0)) 8
      ≡ some (record (answer (record typed { keyboard = k' }) (signed32 (length hi + 1))) {
        buffer = some (fill (replicate 8 0) 0 (hi ++ 10 ∷ []));
      }))
    × (contents k' ≡ [])
sys_read-line_example =
    sys_read-line typed hi [] (replicate 8 0) 8 typed-IsRing hi_plain typed-contents (omega arith)

sys_write-Shows_example :
    ((t : Terminal) × (sys_write typed (pos 1) (some hi) 2
        ≡ some (answer (record typed { terminal = t }) (signed32 2)))
      × Shows t (print_all blank (take 2 hi)))
    × (t : Terminal) × (sys_write typed (pos 2) (some hi) 2
        ≡ some (answer (record typed { terminal = t }) (signed32 2)))
    × Shows t (printed_red blank (take 2 hi))
sys_write-Shows_example =
    sys_write-Shows typed blank hi 2 (initialize-IsScreen dark dark_len)
      (initialize-Shows dark dark_len) (initialize-pager dark)

abbrev start : Fs
start = record { nodes = []; fd_table = []; current_dir = 0 }

abbrev pub booted : System
booted = record typed { fs = fs_init start 0 }

pub booted-IsSound : IsSound booted
booted-IsSound = record {
  fs = fs_init-IsValid start 0 refl;
  kernel = two-IsValid;
  keyboard = typed-IsRing;
  terminal = initialize-IsScreen dark dark_len;
}

-- SYS_WRITE of two bytes at address 0x5000 to standard error.
abbrev write_call : Registers
write_call = record { eax = 4; ebx = 2; ecx = 0x5000; edx = 2 }

abbrev caller : User
caller = record { bytes_at = λ a. some hi; stat_at = λ a. none }

syscall_handler-IsSound_example : Returns (syscall_handler booted caller write_call)
syscall_handler-IsSound_example = syscall_handler-IsSound booted caller write_call booted-IsSound
