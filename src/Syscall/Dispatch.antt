-- ===== src/Syscall/Dispatch.antt =====
-- The dispatch of the system calls in src/syscall.c.
use my_misu_os.Base.{ℕ, Option, some, List, ◌==◌, if◌then◌else◌, neg, signed32}
use my_misu_os.Errno.{enosys}
use my_misu_os.Fs.Named.{FsStat}
use my_misu_os.Syscall.State.{System, Outcome, answer}
use my_misu_os.Syscall.Handlers.{
  sys_exit, sys_read, sys_write, sys_open, sys_close, sys_unlink, sys_chdir, sys_lseek, sys_getpid,
  sys_kill, sys_mkdir, sys_rmdir, sys_stat, sys_getcwd, sys_uptime, sys_fork, sys_waitpid,
  sys_execve, sys_sleep, sys_yield,
}

-- The registers that the handler reads.
pub record Registers : Type 0 where
  pub eax : ℕ
  pub ebx : ℕ
  pub ecx : ℕ
  pub edx : ℕ

-- What the caller's memory has at an address: `none` for NULL.
pub record User : Type 0 where
  pub bytes_at : ℕ → Option (List ℕ)
  pub stat_at : ℕ → Option FsStat

-- The cases of `syscall_handler` up to SYS_LSEEK, `other` for the rest.
unfoldable pub low_calls : System → User → Registers → Option Outcome → Option Outcome
low_calls s u r other =
    let first = signed32 r.ebx in
    if r.eax == 1
    then some (sys_exit s first)
    else if r.eax == 2
    then some (sys_fork s)
    else if r.eax == 3
    then sys_read s first (u.bytes_at r.ecx) r.edx
    else if r.eax == 4
    then sys_write s first (u.bytes_at r.ecx) r.edx
    else if r.eax == 5
    then some (sys_open s (u.bytes_at r.ebx) r.ecx)
    else if r.eax == 6
    then some (sys_close s first)
    else if r.eax == 7
    then some (sys_waitpid s first)
    else if r.eax == 10
    then some (sys_unlink s (u.bytes_at r.ebx))
    else if r.eax == 11
    then some (sys_execve s (u.bytes_at r.ebx))
    else if r.eax == 12
    then some (sys_chdir s (u.bytes_at r.ebx))
    else if r.eax == 19
    then some (sys_lseek s first (signed32 r.ecx) (signed32 r.edx))
    else other

-- What the handler leaves, its result for EAX included; `none` while the call waits.
unfoldable pub syscall_handler : System → User → Registers → Option Outcome
syscall_handler s u r = low_calls s u r (
    if r.eax == 20
    then some (sys_getpid s)
    else if r.eax == 37
    then some (sys_kill s (signed32 r.ebx))
    else if r.eax == 39
    then some (sys_mkdir s (u.bytes_at r.ebx))
    else if r.eax == 40
    then some (sys_rmdir s (u.bytes_at r.ebx))
    else if r.eax == 18
    then some (sys_stat s (u.bytes_at r.ebx) (u.stat_at r.ecx))
    else if r.eax == 183
    then some (sys_getcwd s (u.bytes_at r.ebx) r.ecx)
    else if r.eax == 162
    then some (sys_sleep s r.ebx)
    else if r.eax == 158
    then some (sys_yield s)
    else if r.eax == 100
    then some (sys_uptime s)
    else some (answer s (neg enosys)))
