-- ===== src/Syscall/Sound.antt =====
-- What the parts behind the system calls of src/syscall.c keep true, and the calls that keep it so.
use my_misu_os.Base.{
  ℕ, Option, none, some, List, ltb, ℤ, pos, negsuc, pos_part, ◌+ℤ◌, ltb_ℤ, if_all,
}
use my_misu_os.Fs.Boot.{FsCall, mkdir, cd, open_file, close, lseek, unlink, rmdir, fs_call}
use my_misu_os.Fs.Reachable.{fs_call-IsValid}
use my_misu_os.Fs.Named.{FsStat}
use my_misu_os.Process.{process_terminate}
use my_misu_os.Process.Calls.{process_terminate-IsValid}
use my_misu_os.Keyboard.Ring.{IsRing}
use my_misu_os.Vga.Screen.{IsScreen}
use my_misu_os.Fs.Reachable
use my_misu_os.Process.Table
use my_misu_os.Syscall.{
  System, Outcome, sys_exit, sys_open, sys_close, sys_unlink, sys_chdir, sys_lseek, sys_kill,
  sys_mkdir, sys_rmdir, sys_stat, sys_getcwd,
}

-- The ramdisk and the process table are valid, the keyboard's ring is in range and the cursor is on the
-- screen.
pub record IsSound (s : System) : Type 0 where
  pub fs : Reachable.IsValid s.fs
  pub kernel : Table.IsValid s.kernel
  pub keyboard : IsRing s.keyboard
  pub terminal : IsScreen s.terminal

-- What a call leaves, if it does not wait.
unfoldable pub Returns : Option Outcome → Type 0
Returns none = Unit
Returns (some o) = IsSound o.system

pub with_fs :
    {s : System} (c : FsCall) → IsSound s → IsSound (record s { fs = fs_call s.fs s.kernel.tick c })
with_fs {s} c v = record {
  fs = fs_call-IsValid s.fs s.kernel.tick c v.fs;
  kernel = v.kernel;
  keyboard = v.keyboard;
  terminal = v.terminal;
}

pub with_end :
    {s : System} (pid : ℕ)
    → IsSound s
    → IsSound (record s { kernel = (process_terminate s.kernel pid).1 })
with_end {s} pid v = record {
  fs = v.fs;
  kernel = process_terminate-IsValid s.kernel pid v.kernel;
  keyboard = v.keyboard;
  terminal = v.terminal;
}

pub sys_exit-IsSound : (s : System) (code : ℤ) → IsSound s → IsSound (sys_exit s code).system
unfolding sys_exit
sys_exit-IsSound s code v =
    if_all (λ (o : Outcome). IsSound o.system) (ltb 1 s.kernel.current_pid)
      (with_end s.kernel.current_pid v) v

pub sys_kill-IsSound : (s : System) (pid : ℤ) → IsSound s → IsSound (sys_kill s pid).system
unfolding sys_kill
sys_kill-IsSound s pid v =
    if_all (λ (o : Outcome). IsSound o.system) (ltb_ℤ pid (pos 2)) v (with_end (pos_part pid) v)

pub sys_open-IsSound :
    (s : System) (path : Option (List ℕ)) (flags : ℕ)
    → IsSound s
    → IsSound (sys_open s path flags).system
unfolding sys_open fs_call
sys_open-IsSound s none flags v = v
sys_open-IsSound s (some path) flags v = with_fs (open_file (some path) flags) v

pub sys_close-IsSound : (s : System) (fd : ℤ) → IsSound s → IsSound (sys_close s fd).system
unfolding sys_close fs_call
sys_close-IsSound s fd v =
    if_all (λ (o : Outcome). IsSound o.system) (ltb_ℤ fd (pos 3)) v
      (with_fs (close (fd +ℤ negsuc 2)) v)

pub sys_lseek-IsSound :
    (s : System) (fd : ℤ) (offset whence : ℤ)
    → IsSound s
    → IsSound (sys_lseek s fd offset whence).system
unfolding sys_lseek fs_call
sys_lseek-IsSound s fd offset whence v =
    if_all (λ (o : Outcome). IsSound o.system) (ltb_ℤ fd (pos 3)) v
      (with_fs (lseek (fd +ℤ negsuc 2) offset whence) v)

pub sys_unlink-IsSound :
    (s : System) (name : Option (List ℕ)) → IsSound s → IsSound (sys_unlink s name).system
unfolding sys_unlink fs_call
sys_unlink-IsSound s none v = v
sys_unlink-IsSound s (some name) v = with_fs (unlink name) v

pub sys_chdir-IsSound :
    (s : System) (name : Option (List ℕ)) → IsSound s → IsSound (sys_chdir s name).system
unfolding sys_chdir fs_call
sys_chdir-IsSound s none v = v
sys_chdir-IsSound s (some name) v = with_fs (cd name) v

pub sys_mkdir-IsSound :
    (s : System) (name : Option (List ℕ)) → IsSound s → IsSound (sys_mkdir s name).system
unfolding sys_mkdir fs_call
sys_mkdir-IsSound s none v = v
sys_mkdir-IsSound s (some name) v = with_fs (mkdir (some name)) v

pub sys_rmdir-IsSound :
    (s : System) (name : Option (List ℕ)) → IsSound s → IsSound (sys_rmdir s name).system
unfolding sys_rmdir fs_call
sys_rmdir-IsSound s none v = v
sys_rmdir-IsSound s (some name) v = with_fs (rmdir name) v

pub sys_stat-IsSound :
    (s : System) (path : Option (List ℕ)) (out : Option FsStat)
    → IsSound s
    → IsSound (sys_stat s path out).system
unfolding sys_stat
sys_stat-IsSound s none out v = v
sys_stat-IsSound s (some path) none v = v
sys_stat-IsSound s (some path) (some out) v = v

pub sys_getcwd-IsSound :
    (s : System) (buf : Option (List ℕ)) (size : ℕ)
    → IsSound s
    → IsSound (sys_getcwd s buf size).system
unfolding sys_getcwd
sys_getcwd-IsSound s none size v = v
sys_getcwd-IsSound s (some buf) size v = v
