-- ===== src/Syscall/Keeps.antt =====
-- What every system call of src/syscall.c keeps true of the parts that it acts on.
use my_misu_os.Base.{Option, ◌==◌, signed32, if_all}
use my_misu_os.Syscall.{
  System, Outcome, sys_getpid, sys_uptime, sys_fork, sys_waitpid, sys_execve, sys_yield, Registers,
  User, low_calls, syscall_handler,
}
use my_misu_os.Syscall.Sound.{
  IsSound, Returns, sys_exit-IsSound, sys_kill-IsSound, sys_open-IsSound, sys_close-IsSound,
  sys_lseek-IsSound, sys_unlink-IsSound, sys_chdir-IsSound, sys_mkdir-IsSound, sys_rmdir-IsSound,
  sys_stat-IsSound, sys_getcwd-IsSound,
}
use my_misu_os.Syscall.Sleep.{sys_sleep-IsSound}
use my_misu_os.Syscall.Streams.{sys_read-IsSound, sys_write-IsSound}

low_calls-IsSound :
    (s : System) (u : User) (r : Registers) (other : Option Outcome)
    → IsSound s
    → Returns other
    → Returns (low_calls s u r other)
unfolding low_calls Returns sys_fork sys_waitpid sys_execve
low_calls-IsSound s u r other v rest =
    let first = signed32 r.ebx in
    if_all Returns (r.eax == 1) (sys_exit-IsSound s first v) (
      if_all Returns (r.eax == 2) v (
        if_all Returns (r.eax == 3) (sys_read-IsSound s first (u.bytes_at r.ecx) r.edx v) (
          if_all Returns (r.eax == 4) (sys_write-IsSound s first (u.bytes_at r.ecx) r.edx v) (
            if_all Returns (r.eax == 5) (sys_open-IsSound s (u.bytes_at r.ebx) r.ecx v) (
              if_all Returns (r.eax == 6) (sys_close-IsSound s first v) (
                if_all Returns (r.eax == 7) v (
                  if_all Returns (r.eax == 10) (sys_unlink-IsSound s (u.bytes_at r.ebx) v) (
                    if_all Returns (r.eax == 11) v (
                      if_all Returns (r.eax == 12) (sys_chdir-IsSound s (u.bytes_at r.ebx) v) (
                        if_all Returns (r.eax == 19)
                          (sys_lseek-IsSound s first (signed32 r.ecx) (signed32 r.edx) v)
                          rest))))))))))

-- Every system call, whatever its number, its arguments and the caller's memory, keeps the ramdisk and the
-- process table valid, the ring of the keyboard in range and the cursor on the screen, if the call
-- returns.
pub syscall_handler-IsSound :
    (s : System) (u : User) (r : Registers) → IsSound s → Returns (syscall_handler s u r)
unfolding syscall_handler Returns sys_getpid sys_yield sys_uptime
syscall_handler-IsSound s u r v = low_calls-IsSound s u r _ v (
    if_all Returns (r.eax == 20) v (
      if_all Returns (r.eax == 37) (sys_kill-IsSound s (signed32 r.ebx) v) (
        if_all Returns (r.eax == 39) (sys_mkdir-IsSound s (u.bytes_at r.ebx) v) (
          if_all Returns (r.eax == 40) (sys_rmdir-IsSound s (u.bytes_at r.ebx) v) (
            if_all Returns (r.eax == 18) (sys_stat-IsSound s (u.bytes_at r.ebx) (u.stat_at r.ecx) v)
              (if_all Returns (r.eax == 183) (sys_getcwd-IsSound s (u.bytes_at r.ebx) r.ecx v) (
                if_all Returns (r.eax == 162) (sys_sleep-IsSound s r.ebx v)
                  (if_all Returns (r.eax == 158) v (if_all Returns (r.eax == 100) v v)))))))))
