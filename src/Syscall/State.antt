-- ===== src/Syscall/State.antt =====
-- What the system calls of src/syscall.c act on and what they return.
use my_misu_os.Base.{ℕ, Option, none, List, ℤ}
use my_misu_os.Fs.{Fs}
use my_misu_os.Fs.Named.{FsStat}
use my_misu_os.Keyboard.{Keyboard}
use my_misu_os.Process.{Kernel}
use my_misu_os.Vga.{Terminal}

-- The parts of the kernel behind the calls.
pub record System : Type 0 where
  pub kernel : Kernel
  pub fs : Fs
  pub keyboard : Keyboard
  pub terminal : Terminal

-- What a handler returns, what it leaves in the caller's buffer and in its `fs_stat_t`, and the system.
pub record Outcome : Type 0 where
  pub result : ℤ
  pub buffer : Option (List ℕ)
  pub stat : Option FsStat
  pub system : System

abbrev pub answer : System → ℤ → Outcome
answer s r = record { result = r; buffer = none; stat = none; system = s }

abbrev pub fs_answer : System → ℤ × Fs → Outcome
fs_answer s (r, fs) = answer (record s { fs = fs }) r
