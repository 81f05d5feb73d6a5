-- ===== src/Shell/Tasks.antt =====
-- The commands of src/shell.c on processes, the log, the history and numbers.
use my_misu_os.Base.{
  ℕ, ◌+◌, ◌/◌, ◌%◌, Bool, Option, none, some, List, [], ◌∷◌, ◌++◌, ltb, leb, ◌==◌, if◌then◌else◌,
  length, take, ℤ, pos, is_neg, eq_ℤ, pattern32, codes,
}
use my_misu_os.CStrings.{strcmp, atoi}
use my_misu_os.CStrings.Laws.{text}
use my_misu_os.Klog.{KlogLevel, info, warn, err, ok_level, KlogEntry, klog_count, printed}
use my_misu_os.Kprintf.{print_int, print_hex}
use my_misu_os.Pmm.{pmm_alloc_page}
use my_misu_os.Process.{ProcState, Process, Kernel, process_create_kernel, process_terminate}
use my_misu_os.Vga.{
  vga_white, vga_green, vga_light_grey, vga_light_green, vga_light_cyan, vga_light_red,
  vga_dark_grey, vga_yellow,
}
use my_misu_os.Syscall.{System}
use my_misu_os.Shell.State.{Output, say, fg, arg, History}
use my_misu_os.Shell.Screens.{decimal}
use my_misu_os.Shell.Files.{usage, finish_with}

-- `strcmp(a, b) == 0`
unfoldable pub is_text : List ℕ → List ℕ → Bool
is_text a b = eq_ℤ (strcmp a b) (pos 0)

-- `sn[state]`
unfoldable pub state_name : ProcState → List ℕ
state_name ProcState.unused = codes "----"
state_name ProcState.running = codes "RUN "
state_name ProcState.ready = codes "WAIT"
state_name ProcState.blocked = codes "BLCK"
state_name ProcState.terminated = codes "DEAD"

unfoldable pub state_color : ProcState → ℕ
state_color ProcState.running = vga_light_green
state_color ProcState.unused = vga_light_grey
state_color ProcState.ready = vga_light_grey
state_color ProcState.blocked = vga_light_grey
state_color ProcState.terminated = vga_light_grey

-- The loop of `cmd_ps` over the table.
unfoldable pub ps_lines : List Process → List Output
ps_lines [] = []
ps_lines (p ∷ ps) =
    let rest = ps_lines ps in
    if p.in_use
    then fg (state_color p.state)
      ∷ say (
          codes "  "
          ++ decimal p.pid
          ++ codes "    "
          ++ state_name p.state
          ++ codes "     "
          ++ text p.name
          ++ codes "\n")
      ∷ rest
    else rest

unfoldable pub cmd_ps : System → List Output
cmd_ps s =
    (fg vga_white
      ∷ say (codes "\n  PID  STATE    NAME\n")
      ∷ fg vga_dark_grey
      ∷ say (codes "  ---  ------   ----\n")
      ∷ [])
    ++ ps_lines s.kernel.proc_table
    ++ fg vga_light_grey ∷ say (codes "\n") ∷ []

-- Where the linker puts the entry wrapper of process.c and the three demo tasks.
pub record Addresses : Type 0 where
  pub wrapper : ℕ
  pub counter_task : ℕ
  pub spinner_task : ℕ
  pub ticker_task : ℕ

-- The tasks that a name starts, and the result of the last start; `none` for a name that is not known.
unfoldable pub spawn_tasks : Addresses → Kernel → List ℕ → Option (ℤ × Kernel)
spawn_tasks a k name =
    let counter = process_create_kernel k a.wrapper (codes "counter") a.counter_task in
    let spinner = process_create_kernel counter.1 a.wrapper (codes "spinner") a.spinner_task in
    if is_text name (codes "counter")
    then some counter
    else if is_text name (codes "spinner")
    then some (process_create_kernel k a.wrapper (codes "spinner") a.spinner_task)
    else if is_text name (codes "ticker")
    then some (process_create_kernel k a.wrapper (codes "ticker") a.ticker_task)
    else if is_text name (codes "all")
    then some (process_create_kernel spinner.1 a.wrapper (codes "ticker") a.ticker_task)
    else none

-- The end of `cmd_spawn`.
unfoldable pub tell_spawned : System → List ℕ → Option (ℤ × Kernel) → System × List Output
tell_spawned s name none =
    finish_with s vga_light_red (codes "  Unknown task: " ++ name ++ codes "\n")
tell_spawned s name (some (pid, k)) =
    if is_neg pid
    then finish_with (record s { kernel = k }) vga_light_red (codes "  Failed to spawn\n")
    else finish_with (record s { kernel = k }) vga_green
        (codes "  Spawned PID "
          ++ print_int pid
          ++ codes ". Use 'kill <pid>' to stop. Run 'ps' to see state.\n")

unfoldable pub cmd_spawn : Addresses → System → List (List ℕ) → System × List Output
cmd_spawn a s argv =
    if ltb (length argv) 2
    then (
      s,
      say (codes "  Usage: spawn <name>\n")
          ∷ say (codes "  Available: counter, spinner, ticker, all\n")
          ∷ [],
    )
    else tell_spawned s (arg argv 1) (spawn_tasks a s.kernel (arg argv 1))

unfoldable pub cmd_kill : System → List (List ℕ) → System × List Output
cmd_kill s argv =
    if ltb (length argv) 2
    then usage s (codes "  Usage: kill <pid>\n")
    else (let p = pattern32 (atoi (arg argv 1)) in
        if leb p 1
        then finish_with s vga_light_red
            (codes "  Cannot kill PID " ++ decimal p ++ codes " (protected)\n")
        else (let (rc, k) = process_terminate s.kernel p in
            if eq_ℤ rc (pos 0)
            then finish_with (record s { kernel = k }) vga_green
                (codes "  Killed PID " ++ decimal p ++ codes "\n")
            else finish_with (record s { kernel = k }) vga_light_red
                (codes "  No such process: PID " ++ decimal p ++ codes "\n")))

-- The lines of the history, the first with the number `i`.
unfoldable pub history_lines : ℕ → List (List ℕ) → List Output
history_lines i [] = []
history_lines i (line ∷ lines) =
    say (codes "  " ++ decimal i ++ codes "  " ++ line ++ codes "\n") ∷ history_lines (i + 1) lines

unfoldable pub cmd_history_show : History → List Output
cmd_history_show h =
    (fg vga_white ∷ say (codes "\n  History:\n") ∷ [])
    ++ history_lines 1 (take h.count h.lines)
    ++ say (codes "\n") ∷ []

unfoldable pub level_output : KlogLevel → List Output
level_output ok_level = fg vga_light_green ∷ say (codes "OK   ") ∷ []
level_output info = fg vga_light_cyan ∷ say (codes "INFO ") ∷ []
level_output warn = fg vga_yellow ∷ say (codes "WARN ") ∷ []
level_output err = fg vga_light_red ∷ say (codes "ERR  ") ∷ []

-- The body of the loop of `klog_print`, for the entries that it visits.
unfoldable pub klog_print : List KlogEntry → List Output
klog_print [] = []
klog_print (e ∷ es) =
    (fg vga_dark_grey
      ∷ say (codes "  [")
      ∷ say (decimal (e.tick / 100) ++ codes "." ++ decimal (e.tick % 100))
      ∷ say (codes "]  ")
      ∷ [])
    ++ level_output e.level
    ++ fg vga_light_grey ∷ say (text e.msg ++ codes "\n") ∷ klog_print es

unfoldable pub cmd_dmesg : System → List Output
cmd_dmesg s =
    (fg vga_white
      ∷ say (
          codes "\n  Kernel Log Buffer  ("
          ++ print_int (klog_count s.kernel.log)
          ++ codes " entries)\n")
      ∷ fg vga_dark_grey
      ∷ say (codes "  ----------------------------------------\n")
      ∷ [])
    ++ klog_print (printed s.kernel.log)
    ++ fg vga_light_grey ∷ say (codes "\n") ∷ []

unfoldable pub show_alloc : System → System × List Output
show_alloc s =
    let (a, pmm) = pmm_alloc_page s.kernel.pmm in
    let s' = record s { kernel = record s.kernel { pmm = pmm } } in
    if a == 0
    then usage s' (codes "  OOM!\n")
    else usage s' (codes "  0x" ++ print_hex a ++ codes "\n")
