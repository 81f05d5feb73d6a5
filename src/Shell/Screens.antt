-- ===== src/Shell/Screens.antt =====
-- The commands of src/shell.c that only show something.
use my_misu_os.Base.{
  ℕ, zero, suc, ◌+◌, ◌*◌, ◌/◌, ◌%◌, ◌^◌, List, [], ◌∷◌, ◌++◌, ltb, if◌then◌else◌, length, set, drop,
  signed32, codes,
}
use my_misu_os.CStrings.{strlen, strcpy}
use my_misu_os.CStrings.Laws.{text}
use my_misu_os.Fs.Named.{fs_get_file_count, fs_get_dir_count}
use my_misu_os.Kprintf.{print_int}
use my_misu_os.Pmm.{
  pmm_get_total_pages, pmm_get_used_pages, pmm_get_free_pages, pmm_get_total_memory_kb,
}
use my_misu_os.Process.{process_get_count}
use my_misu_os.Vga.{
  vga_black, vga_green, vga_light_grey, vga_dark_grey, vga_light_cyan, vga_light_red, vga_white,
}
use my_misu_os.Syscall.{System}
use my_misu_os.Shell.State.{Output, say, tint, fg, join_words}

-- `%d` of an unsigned word.
unfoldable pub decimal : ℕ → List ℕ
decimal w = print_int (signed32 w)

-- Eight bars of colours from `i` on.
unfoldable pub bars : ℕ → ℕ → List Output
bars zero i = []
bars (suc n) i = tint vga_black i ∷ say (codes "   ") ∷ bars n (i + 1)

-- `t/100/60` and `t/100%60`.
abbrev pub minutes : ℕ → ℕ
minutes t = t / 100 / 60

abbrev pub seconds : ℕ → ℕ
seconds t = t / 100 % 60

unfoldable pub cmd_neofetch : System → List Output
cmd_neofetch s =
    (say (codes "\n")
      ∷ fg vga_light_cyan
      ∷ say (codes "       /\\_/\\    ")
      ∷ fg vga_white
      ∷ say (codes "misu@misu-pc\n")
      ∷ fg vga_light_cyan
      ∷ say (codes "      ( o.o )   ")
      ∷ fg vga_dark_grey
      ∷ say (codes "----------------\n")
      ∷ fg vga_light_cyan
      ∷ say (codes "       > ^ <    ")
      ∷ say (codes "OS:      ")
      ∷ fg vga_light_grey
      ∷ say (codes "MyMisu OS v0.5.0\n")
      ∷ fg vga_light_cyan
      ∷ say (codes "      /|   |\\   ")
      ∷ say (codes "Kernel:  ")
      ∷ fg vga_light_grey
      ∷ say (codes "MisuKernel i686\n")
      ∷ fg vga_light_cyan
      ∷ say (codes "     (_|   |_)  ")
      ∷ say (codes "Uptime:  ")
      ∷ fg vga_light_grey
      ∷ say (
          decimal (minutes s.kernel.tick)
          ++ codes " min "
          ++ decimal (seconds s.kernel.tick)
          ++ codes " sec\n")
      ∷ say (codes "                ")
      ∷ fg vga_light_cyan
      ∷ say (codes "Shell:   ")
      ∷ fg vga_light_grey
      ∷ say (codes "misu-sh 2.0\n")
      ∷ say (codes "                ")
      ∷ fg vga_light_cyan
      ∷ say (codes "Memory:  ")
      ∷ fg vga_light_grey
      ∷ say (
          decimal (pmm_get_used_pages s.kernel.pmm * 4 % 2 ^ 32)
          ++ codes "/"
          ++ decimal (pmm_get_total_memory_kb s.kernel.pmm)
          ++ codes " KB\n")
      ∷ say (codes "                ")
      ∷ fg vga_light_cyan
      ∷ say (codes "Procs:   ")
      ∷ fg vga_light_grey
      ∷ say (decimal (process_get_count s.kernel) ++ codes "\n")
      ∷ say (codes "                ")
      ∷ fg vga_light_cyan
      ∷ say (codes "Files:   ")
      ∷ fg vga_light_grey
      ∷ say (
          decimal (fs_get_file_count s.fs)
          ++ codes " files, "
          ++ decimal (fs_get_dir_count s.fs)
          ++ codes " dirs\n")
      ∷ say (codes "                ")
      ∷ [])
    ++ bars 8 0
    ++ (fg vga_light_grey ∷ say (codes "\n                ") ∷ [])
    ++ bars 8 8
    ++ fg vga_light_grey ∷ say (codes "\n\n") ∷ []

-- `n` times '-'.
unfoldable pub dashes : ℕ → List Output
dashes zero = []
dashes (suc n) = say (codes "-") ∷ dashes n

-- `local` is what `msg` held before.
unfoldable pub cmd_cowsay : List ℕ → List (List ℕ) → List Output
cmd_cowsay local argv =
    let empty = set local 0 0 in
    let msg =
      if ltb (length argv) 2
      then strcpy empty (codes "Meow!")
      else join_words empty (drop 1 argv) in
    let len = strlen msg in
    (fg vga_light_grey ∷ say (codes "\n  ") ∷ [])
    ++ dashes (len + 2)
    ++ (say (codes "\n") ∷ say (codes "  | " ++ text msg ++ codes " |\n") ∷ say (codes "  ") ∷ [])
    ++ dashes (len + 2)
    ++ say (codes "\n")
      ∷ fg vga_light_cyan
      ∷ say (codes "    \\   /\\_/\\\n     \\ ( o.o )\n       > ^ <\n\n")
      ∷ fg vga_light_grey
      ∷ []

unfoldable pub cmd_info : System → List Output
cmd_info s =
    fg vga_light_cyan
    ∷ say (codes "\n  MyMisu OS v0.5.0\n")
    ∷ fg vga_light_grey
    ∷ say (codes "  Arch: x86 (i686) | VGA 80x25 | PS/2 | PIT 100Hz\n")
    ∷ say (
        codes "  Memory: "
        ++ decimal (pmm_get_total_memory_kb s.kernel.pmm)
        ++ codes " KB total, "
        ++ decimal (pmm_get_free_pages s.kernel.pmm * 4 % 2 ^ 32)
        ++ codes " KB free\n")
    ∷ say (
        codes "  Procs: "
        ++ decimal (process_get_count s.kernel)
        ++ codes " | FS: "
        ++ decimal (fs_get_file_count s.fs)
        ++ codes " files, "
        ++ decimal (fs_get_dir_count s.fs)
        ++ codes " dirs\n")
    ∷ say (codes "  Syscalls: write,read,mkdir,getpid,uptime\n")
    ∷ say (codes "  Built: GCC 13.2.0 | By: James Mardi, Danny + AI\n\n")
    ∷ []

-- The bar of `bw` cells, the first `f` of them used, from cell `i` on.
unfoldable pub memory_bar : ℕ → ℕ → ℕ → List Output
memory_bar zero f i = []
memory_bar (suc n) f i =
    fg (if ltb i f then vga_light_red else vga_green)
    ∷ say (if ltb i f then codes "#" else codes "-")
    ∷ memory_bar n f (i + 1)

unfoldable pub cmd_meminfo : System → List Output
cmd_meminfo s =
    let total = pmm_get_total_pages s.kernel.pmm in
    let used = pmm_get_used_pages s.kernel.pmm in
    let free_p = pmm_get_free_pages s.kernel.pmm in
    let f = if ltb 0 total then used * 40 % 2 ^ 32 / total else 0 in
    let percent = if ltb 0 total then used * 100 % 2 ^ 32 / total else 0 in
    (fg vga_white
      ∷ say (codes "\n  Memory:\n")
      ∷ fg vga_light_grey
      ∷ say (
          codes "  Total: "
          ++ decimal (total * 4 % 2 ^ 32)
          ++ codes " KB ("
          ++ decimal (total * 4 % 2 ^ 32 / 1024)
          ++ codes " MB)\n")
      ∷ fg vga_green
      ∷ say (
          codes "  Free:  "
          ++ decimal free_p
          ++ codes " pages ("
          ++ decimal (free_p * 4 % 2 ^ 32)
          ++ codes " KB)\n")
      ∷ fg vga_light_red
      ∷ say (
          codes "  Used:  "
          ++ decimal used
          ++ codes " pages ("
          ++ decimal (used * 4 % 2 ^ 32)
          ++ codes " KB)\n")
      ∷ fg vga_white
      ∷ say (codes "  [")
      ∷ [])
    ++ memory_bar 40 f 0
    ++ fg vga_white ∷ say (codes "] " ++ decimal percent ++ codes "%\n\n") ∷ []

-- The commands `version` and `time`.
unfoldable pub show_version : List Output
show_version =
    fg vga_light_cyan
    ∷ say (codes "\n  MyMisu OS v0.5.0\n")
    ∷ fg vga_light_grey
    ∷ say (codes "  MisuKernel i686 | misu-sh 2.0 | GCC 13.2.0\n\n")
    ∷ []

unfoldable pub show_time : System → List Output
show_time s =
    say (
      codes "\n  "
      ++ decimal (minutes s.kernel.tick)
      ++ codes "m "
      ++ decimal (seconds s.kernel.tick)
      ++ codes "s\n\n")
    ∷ []

-- Two decimal digits in a byte of the real-time clock.
unfoldable pub from_bcd : ℕ → ℕ
from_bcd b = b % 16 + b / 16 * 10

-- The command `date`; `rtc` is the byte in a register of the clock.
unfoldable pub show_date : (ℕ → ℕ) → List Output
show_date rtc =
    say (
      codes "\n  20"
      ++ decimal (from_bcd (rtc 0x09))
      ++ codes "-"
      ++ decimal (from_bcd (rtc 0x08))
      ++ codes "-"
      ++ decimal (from_bcd (rtc 0x07))
      ++ codes " "
      ++ decimal (from_bcd (rtc 0x04))
      ++ codes ":"
      ++ decimal (from_bcd (rtc 0x02))
      ++ codes ":"
      ++ decimal (from_bcd (rtc 0x00))
      ++ codes "\n\n")
    ∷ []
