-- ===== src/Shell/Help.antt =====
-- The commands `help` and `colors` of src/shell.c.
use my_misu_os.Base.{ℕ, ◌+◌, List, [], ◌∷◌, ◌++◌, codes}
use my_misu_os.Vga.{vga_black, vga_light_grey, vga_dark_grey, vga_light_cyan, vga_white}
use my_misu_os.Shell.State.{Output, say, tint, fg}

unfoldable pub cmd_help : List Output
cmd_help =
    fg vga_white
    ∷ say (codes "\n  MyMisu OS  -  Command Reference\n")
    ∷ fg vga_dark_grey
    ∷ say (codes "  ----------------------------------------------------------\n")
    ∷ fg vga_light_cyan
    ∷ say (codes "\n  SYSTEM\n")
    ∷ fg vga_light_grey
    ∷ say (codes "    help      Show this command reference\n")
    ∷ say (codes "    clear     Clear the screen\n")
    ∷ say (codes "    info      System info (uptime, memory, processes)\n")
    ∷ say (codes "    neofetch  ASCII art system summary\n")
    ∷ say (codes "    version   Print OS version\n")
    ∷ say (codes "    date      Show current tick / uptime as date\n")
    ∷ say (codes "    time      Show uptime in HH:MM:SS\n")
    ∷ say (codes "    history   Show command history\n")
    ∷ say (codes "    color     Change colors:  color <fg> <bg>  (0-15)\n")
    ∷ say (codes "    colors    Show all 16 VGA colors\n")
    ∷ say (codes "    echo      Echo text back\n")
    ∷ fg vga_light_cyan
    ∷ say (codes "\n  FILES\n")
    ∷ fg vga_light_grey
    ∷ say (codes "    ls        List files in current directory\n")
    ∷ say (codes "    pwd       Print current directory path\n")
    ∷ say (codes "    cd        Change directory:  cd <name>  or  cd ..\n")
    ∷ say (codes "    cat       Show file contents:  cat <file>\n")
    ∷ say (codes "    touch     Create empty file:  touch <name>\n")
    ∷ say (codes "    write     Write text to file:  write <file> <text>\n")
    ∷ say (codes "    edit      Open text editor:  edit <file>\n")
    ∷ say (codes "    mkdir     Create directory:  mkdir <name>\n")
    ∷ say (codes "    rm        Delete file or empty dir:  rm <name>\n")
    ∷ say (codes "    tree      Show filesystem as a tree\n")
    ∷ fg vga_light_cyan
    ∷ say (codes "\n  PROCESSES\n")
    ∷ fg vga_light_grey
    ∷ say (codes "    ps        Quick process list\n")
    ∷ say (codes "    top       Live process viewer (refreshes every 500ms)\n")
    ∷ say (codes "    spawn     Start a kernel task:  spawn <name>\n")
    ∷ say (codes "              names: counter, spinner, ticker, all\n")
    ∷ say (codes "    kill      Stop a process:  kill <pid>\n")
    ∷ say (codes "    meminfo   Show memory usage details\n")
    ∷ say (codes "    syscall   Run all 19 syscalls and report PASS/FAIL\n")
    ∷ say (codes "    dmesg     Show kernel log buffer\n")
    ∷ fg vga_light_cyan
    ∷ say (codes "\n  APPS\n")
    ∷ fg vga_light_grey
    ∷ say (codes "    menu      Visual menu (arrow keys)\n")
    ∷ say (codes "    files     File browser\n")
    ∷ say (codes "    reader    Read text files page by page\n")
    ∷ say (codes "    sysmon    System monitor dashboard\n")
    ∷ say (codes "    calc      Calculator:  calc <a> <op> <b>\n")
    ∷ say (codes "    note      Notepad:  note add <text>  /  note list\n")
    ∷ say (codes "    cowsay    ASCII cow says something:  cowsay <text>\n")
    ∷ say (codes "    widgets   Desktop widgets dashboard\n")
    ∷ fg vga_light_cyan
    ∷ say (codes "\n  GAMES\n")
    ∷ fg vga_light_grey
    ∷ say (codes "    snake     Classic snake (arrow keys, Q to quit)\n")
    ∷ say (codes "    ttt       Tic-tac-toe vs unbeatable CPU (numpad 1-9)\n")
    ∷ say (codes "    ttt2      Tic-tac-toe two-player\n")
    ∷ say (codes "    hangman   Word guessing game\n")
    ∷ say (codes "    rps       Rock paper scissors vs CPU (best of 5)\n")
    ∷ say (codes "    pong      Two-player pong (W/S vs I/K)\n")
    ∷ fg vga_light_cyan
    ∷ say (codes "\n  POWER\n")
    ∷ fg vga_light_grey
    ∷ say (codes "    reboot    Restart the system\n")
    ∷ say (codes "    shutdown  Halt the CPU\n")
    ∷ say (codes "    exit      Same as shutdown\n")
    ∷ say (codes "    panic     Trigger a kernel panic (demo only)\n")
    ∷ say (codes "\n")
    ∷ fg vga_dark_grey
    ∷ say (codes "  Tip: try  spawn all  then  top  to see preemptive multitasking.\n\n")
    ∷ fg vga_light_grey
    ∷ []

abbrev pub color_names : List (List ℕ)
color_names =
    codes "0  black"
    ∷ codes "1  blue"
    ∷ codes "2  green"
    ∷ codes "3  cyan"
    ∷ codes "4  red"
    ∷ codes "5  magenta"
    ∷ codes "6  brown"
    ∷ codes "7  light grey"
    ∷ codes "8  dark grey"
    ∷ codes "9  light blue"
    ∷ codes "10 light green"
    ∷ codes "11 light cyan"
    ∷ codes "12 light red"
    ∷ codes "13 light magenta"
    ∷ codes "14 yellow"
    ∷ codes "15 white"
    ∷ []

-- The loop over the names from colour `i` on.
unfoldable pub color_lines : ℕ → List (List ℕ) → List Output
color_lines i [] = []
color_lines i (name ∷ names) =
    fg i
    ∷ say (codes "    " ++ name)
    ∷ tint vga_black i
    ∷ say (codes "        ")
    ∷ fg vga_light_grey
    ∷ say (codes "\n")
    ∷ color_lines (i + 1) names

unfoldable pub cmd_colors : List Output
cmd_colors =
    (fg vga_white
      ∷ say (codes "\n  VGA Color Palette\n")
      ∷ fg vga_dark_grey
      ∷ say (codes "  -----------------\n")
      ∷ [])
    ++ color_lines 0 color_names
    ++ say (codes "\n")
      ∷ fg vga_dark_grey
      ∷ say (codes "  Use:  color <fg> <bg>     example:  color 14 0   (yellow on black)\n")
      ∷ say (codes "  Reset: color 7 0\n\n")
      ∷ fg vga_light_grey
      ∷ []
