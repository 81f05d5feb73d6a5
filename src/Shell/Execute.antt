-- ===== src/Shell/Execute.antt =====
-- `execute_command` of src/shell.c.
use my_misu_os.Base.{
  ℕ, Bool, true, false, ◌||◌, Option, none, some, List, [], ◌∷◌, ◌++◌, ◌==◌, if◌then◌else◌, length,
  drop, codes,
}
use my_misu_os.Vga.{vga_light_grey, vga_light_red}
use my_misu_os.Syscall.{System}
use my_misu_os.Shell.State.{Output, say, fg, clear, pager, perform, words, max_args, arg, History}
use my_misu_os.Shell.Help.{cmd_help, cmd_colors}
use my_misu_os.Shell.Screens.{
  cmd_neofetch, cmd_cowsay, cmd_info, cmd_meminfo, show_version, show_time, show_date,
}
use my_misu_os.Shell.Files.{
  cmd_ls, cmd_cat, cmd_touch, cmd_mkdir_shell, cmd_write_file, cmd_rm, cmd_cd, cmd_note, echo_words,
  show_pwd,
}
use my_misu_os.Shell.Calc.{cmd_calc, set_color}
use my_misu_os.Shell.Tasks.{
  Addresses, is_text, cmd_ps, cmd_spawn, cmd_kill, cmd_history_show, cmd_dmesg, show_alloc,
}

-- What the command line needs besides the system: the history, the linker's addresses, what the buffers
-- on the stack held before, and the registers of the real-time clock.
pub record Shell : Type 0 where
  pub history : History
  pub addresses : Addresses
  pub local : List ℕ
  pub local' : List ℕ
  pub rtc : ℕ → ℕ

-- The output of a command that changes nothing else.
abbrev pub only : System → List Output → Option System
only s out = perform (s, out)

-- The cases that only show something, `other` for the rest.
unfoldable pub show_commands : Shell → System → List (List ℕ) → Option System → Option System
show_commands sh s argv other =
    let is : List ℕ → Bool = is_text (arg argv 0) in
    if is (codes "help")
    then only s (pager true ∷ cmd_help ++ pager false ∷ [])
    else if is (codes "clear")
    then only s (clear ∷ [])
    else if is (codes "echo")
    then only s (fg vga_light_grey ∷ echo_words (drop 1 argv))
    else if is (codes "info")
    then only s (cmd_info s)
    else if is (codes "neofetch")
    then only s (cmd_neofetch s)
    else if is (codes "version")
    then only s show_version
    else if is (codes "time")
    then only s (show_time s)
    else if is (codes "color")
    then perform (set_color s argv)
    else if is (codes "history")
    then only s (cmd_history_show sh.history)
    else if is (codes "colors")
    then only s cmd_colors
    else if is (codes "date")
    then only s (show_date sh.rtc)
    else other

unfoldable pub file_commands : Shell → System → List (List ℕ) → Option System → Option System
file_commands sh s argv other =
    let is : List ℕ → Bool = is_text (arg argv 0) in
    if is (codes "ls")
    then perform (cmd_ls s sh.local)
    else if is (codes "pwd")
    then only s (show_pwd s)
    else if is (codes "cd")
    then perform (cmd_cd s argv)
    else if is (codes "cat")
    then perform (cmd_cat s sh.local argv)
    else if is (codes "touch")
    then perform (cmd_touch s argv)
    else if is (codes "write")
    then perform (cmd_write_file s sh.local argv)
    else if is (codes "mkdir")
    then perform (cmd_mkdir_shell s argv)
    else if is (codes "rm")
    then perform (cmd_rm s argv)
    else other

-- A command that may trap or write past a buffer.
unfoldable pub perform_some : Option (System × List Output) → Option System
perform_some none = none
perform_some (some left) = perform left

unfoldable pub task_commands : Shell → System → List (List ℕ) → Option System → Option System
task_commands sh s argv other =
    let is : List ℕ → Bool = is_text (arg argv 0) in
    if is (codes "ps")
    then only s (cmd_ps s)
    else if is (codes "spawn")
    then perform (cmd_spawn sh.addresses s argv)
    else if is (codes "kill")
    then perform (cmd_kill s argv)
    else if is (codes "meminfo")
    then only s (cmd_meminfo s)
    else if is (codes "alloc")
    then perform (show_alloc s)
    else if is (codes "calc")
    then perform_some (cmd_calc s argv)
    else if is (codes "note")
    then perform_some (cmd_note s sh.local sh.local' argv)
    else if is (codes "cowsay")
    then only s (cmd_cowsay sh.local argv)
    else if is (codes "dmesg")
    then only s (cmd_dmesg s)
    else other

-- `shutdown`, `poweroff`, `exit`, `panic` and `reboot` end the run; `unknown` is left by the last case.
unfoldable pub last_commands : System → List (List ℕ) → Option System → Option System
last_commands s argv other =
    let is : List ℕ → Bool = is_text (arg argv 0) in
    if is (codes "shutdown") || is (codes "poweroff") || is (codes "exit")
    then none
    else if is (codes "panic") || is (codes "reboot")
    then none
    else other

unfoldable pub unknown_command : System → List (List ℕ) → Option System
unknown_command s argv = only s (
    fg vga_light_red
    ∷ say (codes "  Unknown: " ++ arg argv 0 ++ codes "\n")
    ∷ fg vga_light_grey
    ∷ say (codes "  Type 'help'\n")
    ∷ [])

-- The names of the commands that are not modelled: the editor, the tests of the system calls,
-- `tree`, `top`, the games and the full-screen programs.
unfoldable pub is_app : List ℕ → Bool
is_app name =
    is_text name (codes "edit")
    || is_text name (codes "syscall")
    || is_text name (codes "game")
    || is_text name (codes "snake")
    || is_text name (codes "ttt")
    || is_text name (codes "ttt2")
    || is_text name (codes "hangman")
    || is_text name (codes "rps")
    || is_text name (codes "pong")
    || is_text name (codes "menu")
    || is_text name (codes "files")
    || is_text name (codes "reader")
    || is_text name (codes "top")
    || is_text name (codes "tree")
    || is_text name (codes "sysmon")
    || is_text name (codes "widgets")

-- The chain of cases for the words of a line. `none` while the command waits, stops the processor or
-- traps; `app` is what a command leaves that is not modelled.
unfoldable pub run_command : Shell → System → List (List ℕ) → Option System → Option System
run_command sh s argv app = show_commands sh s argv (
    file_commands sh s argv (
      task_commands sh s argv
        (last_commands s argv (if is_app (arg argv 0) then app else unknown_command s argv))))

unfoldable pub execute_command : Shell → System → List ℕ → Option System → Option System
execute_command sh s input app =
    let argv = words max_args input in
    if length argv == 0 then some s else run_command sh s argv app
