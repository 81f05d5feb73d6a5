-- ===== src/Shell/Keeps.antt =====
-- What a command line of src/shell.c keeps true of the system.
use my_misu_os.Base.{
  ◌≡◌, false, if◌then◌else◌, ℕ, ◌+◌, ◌^◌, ◌<◌, Bool, ◌||◌, Option, List, ◌==◌, length, codes,
  if_all,
}
use my_misu_os.Syscall.{System}
use my_misu_os.Syscall.Sound.{IsSound}
use my_misu_os.Shell.{
  Output, words, max_args, arg, is_text, Shell, only, show_commands, file_commands, task_commands,
  last_commands, unknown_command, is_app, run_command, execute_command,
}
use my_misu_os.Shell.Sound.{Ends, perform-Ends}
use my_misu_os.Shell.Kept.{
  cmd_ls-IsKept, cmd_cat-IsKept, cmd_touch-IsKept, cmd_mkdir_shell-IsKept, cmd_write_file-IsKept,
  cmd_rm-IsKept, cmd_cd-IsKept, cmd_note-Ends,
}
use my_misu_os.Shell.KeptTasks.{
  cmd_spawn-IsKept, cmd_kill-IsKept, show_alloc-IsKept, set_color-IsKept, cmd_calc-Ends,
}

show_commands-Ends :
    (sh : Shell) (s : System) (argv : List (List ℕ)) (other : Option System)
    → IsSound s
    → Ends other
    → Ends (show_commands sh s argv other)
unfolding show_commands
show_commands-Ends sh s argv other v rest =
    let is : List ℕ → Bool = is_text (arg argv 0) in
    let shown : (out : List Output) → Ends (only s out) = λ out. perform-Ends (s, out) v in
    if_all Ends (is (codes "help")) (shown _) (
      if_all Ends (is (codes "clear")) (shown _) (
        if_all Ends (is (codes "echo")) (shown _) (
          if_all Ends (is (codes "info")) (shown _) (
            if_all Ends (is (codes "neofetch")) (shown _) (
              if_all Ends (is (codes "version")) (shown _) (
                if_all Ends (is (codes "time")) (shown _) (
                  if_all Ends (is (codes "color")) (perform-Ends _ (set_color-IsKept s argv v)) (
                    if_all Ends (is (codes "history")) (shown _) (
                      if_all Ends (is (codes "colors")) (shown _)
                        (if_all Ends (is (codes "date")) (shown _) rest))))))))))

file_commands-Ends :
    (sh : Shell) (s : System) (argv : List (List ℕ)) (other : Option System)
    → IsSound s
    → Ends other
    → Ends (file_commands sh s argv other)
unfolding file_commands
file_commands-Ends sh s argv other v rest =
    let is : List ℕ → Bool = is_text (arg argv 0) in
    if_all Ends (is (codes "ls")) (perform-Ends _ (cmd_ls-IsKept s sh.local v)) (
      if_all Ends (is (codes "pwd")) (perform-Ends _ v) (
        if_all Ends (is (codes "cd")) (perform-Ends _ (cmd_cd-IsKept s argv v)) (
          if_all Ends (is (codes "cat")) (perform-Ends _ (cmd_cat-IsKept s sh.local argv v)) (
            if_all Ends (is (codes "touch")) (perform-Ends _ (cmd_touch-IsKept s argv v)) (
              if_all Ends (is (codes "write"))
                (perform-Ends _ (cmd_write_file-IsKept s sh.local argv v))
                (if_all Ends (is (codes "mkdir")) (perform-Ends _ (cmd_mkdir_shell-IsKept s argv v))
                  (if_all Ends (is (codes "rm")) (perform-Ends _ (cmd_rm-IsKept s argv v))
                    rest)))))))

task_commands-Ends :
    (sh : Shell) (s : System) (argv : List (List ℕ)) (other : Option System)
    → s.kernel.next_pid + 3 < 2 ^ 32
    → IsSound s
    → Ends other
    → Ends (task_commands sh s argv other)
unfolding task_commands
task_commands-Ends sh s argv other room v rest =
    let is : List ℕ → Bool = is_text (arg argv 0) in
    if_all Ends (is (codes "ps")) (perform-Ends _ v) (
      if_all Ends (is (codes "spawn"))
        (perform-Ends _ (cmd_spawn-IsKept sh.addresses s argv room v))
        (if_all Ends (is (codes "kill")) (perform-Ends _ (cmd_kill-IsKept s argv v)) (
          if_all Ends (is (codes "meminfo")) (perform-Ends _ v) (
            if_all Ends (is (codes "alloc")) (perform-Ends _ (show_alloc-IsKept s v)) (
              if_all Ends (is (codes "calc")) (cmd_calc-Ends s argv v) (
                if_all Ends (is (codes "note")) (cmd_note-Ends s sh.local sh.local' argv v) (
                  if_all Ends (is (codes "cowsay")) (perform-Ends _ v)
                    (if_all Ends (is (codes "dmesg")) (perform-Ends _ v) rest))))))))

last_commands-Ends :
    (s : System) (argv : List (List ℕ)) (other : Option System)
    → Ends other
    → Ends (last_commands s argv other)
unfolding last_commands Ends
last_commands-Ends s argv other rest =
    let is : List ℕ → Bool = is_text (arg argv 0) in
    if_all Ends (is (codes "shutdown") || is (codes "poweroff") || is (codes "exit")) tt
      (if_all Ends (is (codes "panic") || is (codes "reboot")) tt rest)

-- Whatever line is typed, unless its first word names one of the 16 commands that are not modelled, the
-- command keeps the ramdisk and the process table valid, the ring of the keyboard in range and the cursor
-- on the screen, if it comes to its end and does not write past the end of a buffer, as `note` may; three
-- more process identifiers must be left before they wrap.
pub execute_command-Ends :
    (sh : Shell) (s : System) (input : List ℕ) (app : Option System)
    → s.kernel.next_pid + 3 < 2 ^ 32
    → IsSound s
    → is_app (arg (words max_args input) 0) ≡ false
    → Ends (execute_command sh s input app)
unfolding execute_command run_command unknown_command Ends
execute_command-Ends sh s input app room v known =
    let argv = words max_args input in
    let unknown : Ends (unknown_command s argv) = perform-Ends _ v in
    let rest =
      last_commands-Ends s argv (if is_app (arg argv 0) then app else unknown_command s argv)
        (rw known unknown) in
    if_all Ends (length argv == 0) v (
      show_commands-Ends sh s argv _ v
        (file_commands-Ends sh s argv _ v (task_commands-Ends sh s argv _ room v rest)))
