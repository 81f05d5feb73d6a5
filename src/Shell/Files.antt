-- ===== src/Shell/Files.antt =====
-- The commands of src/shell.c on files. `local` is what a buffer on the stack held before.
use my_misu_os.Base.{◌&&◌, ◌+◌, leb, Option, none, some, not}
use my_misu_os.Base.{
  ℕ, Bool, true, false, ◌&&◌, some, List, [], ◌∷◌, ◌++◌, ltb, ◌==◌, if◌then◌else◌, length, get_or,
  set, drop, pos, is_neg, ltb_ℤ, eq_ℤ, codes,
}
use my_misu_os.CStrings.{strlen, strcat}
use my_misu_os.CStrings.Laws.{text}
use my_misu_os.Fs.Named.{
  fs_mkdir, fs_create_file, fs_write_file, fs_read_file, fs_list, fs_delete, fs_cd, fs_pwd,
}
use my_misu_os.Kprintf.{print_int}
use my_misu_os.Vga.{
  vga_white, vga_green, vga_light_grey, vga_light_green, vga_light_cyan, vga_light_red,
}
use my_misu_os.Syscall.{System}
use my_misu_os.Shell.State.{Output, say, fg, arg, join_words}

-- A command without output, and the end of most commands.
abbrev pub usage : System → List ℕ → System × List Output
usage s text = (s, say text ∷ [])

abbrev pub finish_with : System → ℕ → List ℕ → System × List Output
finish_with s color text = (s, fg color ∷ say text ∷ fg vga_light_grey ∷ [])

-- The loop of `cmd_ls` over the bytes of the listing; `inside` is true within a line.
unfoldable pub list_lines : Bool → List ℕ → List Output
list_lines true [] = say (codes "\n") ∷ []
list_lines false [] = []
list_lines true (c ∷ cs) =
    let rest = list_lines (not (c == 10)) cs in
    if c == 10 then say (codes "\n") ∷ rest else say (c ∷ []) ∷ rest
list_lines false (c ∷ cs) =
    let color =
      if c == b'D' && get_or cs 0 0 == b'I' && get_or cs 1 0 == b'R'
      then vga_light_cyan
      else vga_light_green in
    let rest = list_lines (not (c == 10)) cs in
    fg color ∷ say (codes "  ") ∷ (if c == 10 then say (codes "\n") ∷ rest else say (c ∷ []) ∷ rest)

unfoldable pub cmd_ls : System → List ℕ → System × List Output
cmd_ls s local =
    let (count, buf) = fs_list s.fs local 2048 in
    (
      s,
      (fg vga_white
            ∷ say (
                codes "\n  "
                ++ text (fs_pwd s.fs)
                ++ codes " ("
                ++ print_int count
                ++ codes " entries)\n")
            ∷ [])
          ++ list_lines false (text buf)
          ++ fg vga_light_grey ∷ say (codes "\n") ∷ [],
    )

unfoldable pub cmd_cat : System → List ℕ → List (List ℕ) → System × List Output
cmd_cat s local argv =
    if ltb (length argv) 2
    then usage s (codes "  Usage: cat <file>\n")
    else (let (r, buf) = fs_read_file s.fs (arg argv 1) local 4096 in
        if is_neg r
        then finish_with s vga_light_red (codes "  Not found: " ++ arg argv 1 ++ codes "\n")
        else finish_with s vga_light_grey (codes "\n" ++ text buf ++ codes "\n"))

unfoldable pub cmd_touch : System → List (List ℕ) → System × List Output
cmd_touch s argv =
    if ltb (length argv) 2
    then usage s (codes "  Usage: touch <file>\n")
    else (let (r, fs) = fs_create_file s.fs s.kernel.tick (some (arg argv 1)) in
        if eq_ℤ r (pos 0)
        then finish_with (record s { fs = fs }) vga_green
            (codes "  Created: " ++ arg argv 1 ++ codes "\n")
        else finish_with (record s { fs = fs }) vga_light_red (codes "  Failed\n"))

unfoldable pub cmd_mkdir_shell : System → List (List ℕ) → System × List Output
cmd_mkdir_shell s argv =
    if ltb (length argv) 2
    then usage s (codes "  Usage: mkdir <dir>\n")
    else (let (r, fs) = fs_mkdir s.fs s.kernel.tick (some (arg argv 1)) in
        if eq_ℤ r (pos 0)
        then finish_with (record s { fs = fs }) vga_green
            (codes "  Created: " ++ arg argv 1 ++ codes "\n")
        else finish_with (record s { fs = fs }) vga_light_red (codes "  Failed\n"))

-- The text that `cmd_write_file` and `cmd_note` build in `data`.
unfoldable pub line_of : List ℕ → List (List ℕ) → List ℕ
line_of local args = strcat (join_words (set local 0 0) args) (codes "\n")

unfoldable pub cmd_write_file : System → List ℕ → List (List ℕ) → System × List Output
cmd_write_file s local argv =
    if ltb (length argv) 3
    then usage s (codes "  Usage: write <file> <text>\n")
    else (let bytes = line_of local (drop 2 argv) in
        let (r, fs) = fs_write_file s.fs (arg argv 1) bytes (strlen bytes) in
        if is_neg r
        then finish_with (record s { fs = fs }) vga_light_red (codes "  Not found (touch first)\n")
        else finish_with (record s { fs = fs }) vga_green
            (codes "  Wrote " ++ print_int r ++ codes " bytes\n"))

unfoldable pub cmd_rm : System → List (List ℕ) → System × List Output
cmd_rm s argv =
    if ltb (length argv) 2
    then usage s (codes "  Usage: rm <n>\n")
    else (let (r, fs) = fs_delete s.fs (arg argv 1) in
        if eq_ℤ r (pos 0)
        then finish_with (record s { fs = fs }) vga_green
            (codes "  Deleted: " ++ arg argv 1 ++ codes "\n")
        else finish_with (record s { fs = fs }) vga_light_red (codes "  Failed\n"))

unfoldable pub cmd_cd : System → List (List ℕ) → System × List Output
cmd_cd s argv =
    if ltb (length argv) 2
    then (record s { fs = (fs_cd s.fs (codes "/")).1 }, [])
    else (let (r, fs) = fs_cd s.fs (arg argv 1) in
        if is_neg r
        then finish_with (record s { fs = fs }) vga_light_red
            (codes "  No such dir: " ++ arg argv 1 ++ codes "\n")
        else (record s { fs = fs }, []))

abbrev pub notes : List ℕ
notes = codes "notes.txt"

-- `note` without arguments.
unfoldable pub show_notes : System → List ℕ → System × List Output
show_notes s local =
    let (r, buf) = fs_read_file s.fs notes local 4096 in
    if is_neg r then usage s (codes "  No notes\n") else (
      s,
      fg vga_white
          ∷ say (codes "\n  Notes:\n")
          ∷ fg vga_light_grey
          ∷ say (text buf ++ codes "\n")
          ∷ [],
    )

-- `local` stands for `data` and `local'` for `buf` and `ex`. `none` where `strcat` writes past the 4096
-- bytes of `ex`, whose effect is not modelled.
unfoldable pub cmd_note : System → List ℕ → List ℕ → List (List ℕ) → Option (System × List Output)
cmd_note s local local' argv =
    if ltb (length argv) 2
    then some (show_notes s local')
    else (let made = (fs_create_file s.fs s.kernel.tick (some notes)).1 in
        let bytes = line_of local (drop 1 argv) in
        let (el, ex) = fs_read_file made notes local' 4096 in
        let all = strcat ex bytes in
        let fs =
          if ltb_ℤ (pos 0) el
          then (fs_write_file made notes all (strlen all)).1
          else (fs_write_file made notes bytes (strlen bytes)).1 in
        if ltb_ℤ (pos 0) el && leb 4096 (strlen ex + strlen bytes)
        then none
        else some (finish_with (record s { fs = fs }) vga_green (codes "  Saved!\n")))

-- `echo` and `pwd`.
unfoldable pub echo_words : List (List ℕ) → List Output
echo_words [] = say (codes "\n") ∷ []
echo_words (a ∷ []) = say a ∷ say (codes "\n") ∷ []
echo_words (a ∷ b ∷ rest) = say a ∷ say (codes " ") ∷ echo_words (b ∷ rest)

unfoldable pub show_pwd : System → List Output
show_pwd s = say (codes "  " ++ text (fs_pwd s.fs) ++ codes "\n") ∷ []
