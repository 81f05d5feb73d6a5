-- ===== src/Syscall/Handlers.antt =====
-- The handlers of src/syscall.c.
use my_misu_os.Base.{
  ◌-◌, ◌%◌, ◌^◌, ℕ, zero, suc, ◌+◌, Option, none, some, List, ltb, ◌==◌, if◌then◌else◌, set, take,
  ℤ, pos, negsuc, pos_part, neg, ◌+ℤ◌, is_neg, ltb_ℤ, eq_ℤ, signed32,
}
use my_misu_os.Errno.{enosys, efault, ebadf, eperm}
use my_misu_os.Fs.Named.{fs_mkdir, fs_cd, fs_unlink, fs_rmdir, fs_getcwd, FsStat, fs_stat}
use my_misu_os.Fs.Descriptors.{fs_open, fs_close, fs_read_fd, fs_write_fd, fs_lseek}
use my_misu_os.Keyboard.{Keyboard, keyboard_getchar}
use my_misu_os.Process.{Kernel, process_terminate}
use my_misu_os.Timer.{timer_callback}
use my_misu_os.Vga.{
  vga_black, vga_red, vga_light_grey, vga_entry_color, Terminal, terminal_setcolor, put_all,
}
use my_misu_os.Syscall.State.{System, Outcome, answer, fs_answer}

unfoldable pub sys_exit : System → ℤ → Outcome
sys_exit s code =
    if ltb 1 s.kernel.current_pid
    then answer (record s { kernel = (process_terminate s.kernel s.kernel.current_pid).1 }) (pos 0)
    else answer s (pos 0)

-- The loop over the keyboard, with `left` characters to go, the next for index `i`: `none` while it waits.
unfoldable pub read_chars : ℕ → ℕ → List ℕ → Keyboard → Option (ℕ × List ℕ × Keyboard)
read_chars zero i buf k = some (i, buf, k)
read_chars (suc left) i buf k = elim (keyboard_getchar k) [
  | none ↦ none
  | some (c, k') ↦
      let rest = read_chars left (suc i) (set buf i c) k' in
      if c == 10 then some (i + 1, set buf i c, k') else rest
]

-- `none` while it waits for the keyboard.
unfoldable pub sys_read : System → ℤ → Option (List ℕ) → ℕ → Option Outcome
sys_read s fd none count = some (answer s (neg efault))
sys_read s fd (some buf) count =
    if eq_ℤ fd (pos 0)
    then elim (read_chars count 0 buf s.keyboard) [
      | none ↦ none
      | some (n, buf', k) ↦
          some (record (answer (record s { keyboard = k }) (signed32 n)) { buffer = some buf' })
    ]
    else if ltb_ℤ fd (pos 3)
    then some (record (answer s (neg ebadf)) { buffer = some buf })
    else (let (r, out, fs) = fs_read_fd s.fs (fd +ℤ negsuc 2) (some buf) count in
        some (record (answer (record s { fs = fs }) r) { buffer = out }))

-- The loop over the bytes of the buffer on the terminal `t`, which is left as `after` makes it; `none`
-- while the pager waits for a key.
unfoldable pub write_chars : System → Terminal → List ℕ → (Terminal → Terminal) → ℕ → Option Outcome
write_chars s t bytes after count = elim (put_all t s.keyboard bytes) [
  | none ↦ none
  | some (t', k) ↦ some (answer (record s { terminal = after t'; keyboard = k }) (signed32 count))
]

unfoldable pub sys_write : System → ℤ → Option (List ℕ) → ℕ → Option Outcome
sys_write s fd none count = some (answer s (neg efault))
sys_write s fd (some buf) count =
    if eq_ℤ fd (pos 1)
    then write_chars s s.terminal (take count buf) (λ t. t) count
    else if eq_ℤ fd (pos 2)
    then write_chars s (terminal_setcolor s.terminal (vga_entry_color vga_red vga_black))
        (take count buf) (λ t. terminal_setcolor t (vga_entry_color vga_light_grey vga_black)) count
    else if ltb_ℤ fd (pos 3)
    then some (answer s (neg ebadf))
    else some (fs_answer s (fs_write_fd s.fs (fd +ℤ negsuc 2) (some buf) count))

unfoldable pub sys_open : System → Option (List ℕ) → ℕ → Outcome
sys_open s none flags = answer s (neg efault)
sys_open s (some path) flags =
    let (fd, fs) = fs_open s.fs s.kernel.tick (some path) flags in
    answer (record s { fs = fs }) (if is_neg fd then fd else fd +ℤ pos 3)

unfoldable pub sys_close : System → ℤ → Outcome
sys_close s fd =
    if ltb_ℤ fd (pos 3) then answer s (neg ebadf) else fs_answer s (fs_close s.fs (fd +ℤ negsuc 2))

-- `path` is the argument of a call that takes a name, `none` for NULL.
unfoldable pub sys_unlink : System → Option (List ℕ) → Outcome
sys_unlink s none = answer s (neg efault)
sys_unlink s (some path) = fs_answer s (fs_unlink s.fs path)

unfoldable pub sys_chdir : System → Option (List ℕ) → Outcome
sys_chdir s none = answer s (neg efault)
sys_chdir s (some path) = fs_answer s (fs_cd s.fs path)

unfoldable pub sys_lseek : System → ℤ → ℤ → ℤ → Outcome
sys_lseek s fd offset whence =
    if ltb_ℤ fd (pos 3)
    then answer s (neg ebadf)
    else fs_answer s (fs_lseek s.fs (fd +ℤ negsuc 2) offset whence)

unfoldable pub sys_getpid : System → Outcome
sys_getpid s = answer s (signed32 s.kernel.current_pid)

unfoldable pub sys_kill : System → ℤ → Outcome
sys_kill s pid =
    if ltb_ℤ pid (pos 2)
    then answer s (neg eperm)
    else answer (record s { kernel = (process_terminate s.kernel (pos_part pid)).1 }) (pos 0)

unfoldable pub sys_mkdir : System → Option (List ℕ) → Outcome
sys_mkdir s none = answer s (neg efault)
sys_mkdir s (some name) = fs_answer s (fs_mkdir s.fs s.kernel.tick (some name))

unfoldable pub sys_rmdir : System → Option (List ℕ) → Outcome
sys_rmdir s none = answer s (neg efault)
sys_rmdir s (some name) = fs_answer s (fs_rmdir s.fs name)

unfoldable pub sys_stat : System → Option (List ℕ) → Option FsStat → Outcome
sys_stat s none out = record (answer s (neg efault)) { stat = out }
sys_stat s (some path) none = answer s (neg efault)
sys_stat s (some path) (some out) =
    let (r, out') = fs_stat s.fs (some path) (some out) in record (answer s r) { stat = out' }

unfoldable pub sys_getcwd : System → Option (List ℕ) → ℕ → Outcome
sys_getcwd s none size = answer s (neg efault)
sys_getcwd s (some buf) size =
    let (r, out) = fs_getcwd s.fs (some buf) size in record (answer s r) { buffer = out }

unfoldable pub sys_uptime : System → Outcome
sys_uptime s = answer s (signed32 s.kernel.tick)

unfoldable pub sys_fork : System → Outcome
sys_fork s = answer s (neg enosys)

unfoldable pub sys_waitpid : System → ℤ → Outcome
sys_waitpid s pid = answer s (neg enosys)

unfoldable pub sys_execve : System → Option (List ℕ) → Outcome
sys_execve s path = answer s (neg enosys)

-- The loop of `sys_sleep` from the tick `start` on, with `left` rounds to go: `hlt` lasts until the next
-- interrupt of the timer. What other processes do when the scheduler has them run is not part of it.
unfoldable pub sleep_until : ℕ → ℕ → ℕ → Kernel → Kernel
sleep_until zero start ticks k = k
sleep_until (suc left) start ticks k =
    let rest = sleep_until left start ticks (timer_callback k) in
    if ltb ((k.tick + 2 ^ 32 - start) % 2 ^ 32) ticks then rest else k

-- Each round counts a tick, so that `ticks` rounds are enough.
unfoldable pub sys_sleep : System → ℕ → Outcome
sys_sleep s ticks =
    answer (record s { kernel = sleep_until ticks s.kernel.tick ticks s.kernel }) (pos 0)

-- After the interrupt that ends `hlt`.
unfoldable pub sys_yield : System → Outcome
sys_yield s = answer s (pos 0)
