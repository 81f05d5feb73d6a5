-- ===== src/Shell/Kept.antt =====
-- The commands of src/shell.c on files keep the system sound.
use my_misu_os.Base.{
  Option, ◌+◌, leb, ◌&&◌, ℕ, some, List, ltb, length, drop, pos, is_neg, ltb_ℤ, eq_ℤ, codes, if_all,
}
use my_misu_os.CStrings.{strlen, strcat}
use my_misu_os.Fs.Boot.{mkdir, create_file, write_file, delete, cd, fs_call}
use my_misu_os.Fs.Named.{fs_mkdir, fs_create_file, fs_write_file, fs_read_file, fs_delete, fs_cd}
use my_misu_os.Fs.{Fs}
use my_misu_os.Syscall.{System}
use my_misu_os.Syscall.Sound.{IsSound}
use my_misu_os.Shell.{
  Output, arg, cmd_ls, cmd_cat, cmd_touch, cmd_mkdir_shell, cmd_write_file, cmd_rm, cmd_cd,
  cmd_note, perform_some, line_of, notes, show_notes,
}
use my_misu_os.Shell.Sound.{keep_files, Ends, perform-Ends}

-- A command that leaves the system sound before its output.
abbrev pub IsKept : System × List Output → Type 0
IsKept left = IsSound left.0

pub cmd_ls-IsKept : (s : System) (local : List ℕ) → IsSound s → IsKept (cmd_ls s local)
unfolding cmd_ls
cmd_ls-IsKept s local v = v

pub cmd_cat-IsKept :
    (s : System) (local : List ℕ) (argv : List (List ℕ)) → IsSound s → IsKept (cmd_cat s local argv)
unfolding cmd_cat
cmd_cat-IsKept s local argv v =
    if_all IsKept (ltb (length argv) 2) v
      (if_all IsKept (is_neg (fs_read_file s.fs (arg argv 1) local 4096).0) v v)

pub cmd_touch-IsKept : (s : System) (argv : List (List ℕ)) → IsSound s → IsKept (cmd_touch s argv)
unfolding cmd_touch fs_call
cmd_touch-IsKept s argv v =
    let made = keep_files s (create_file (some (arg argv 1))) v in
    if_all IsKept (ltb (length argv) 2) v (
      if_all IsKept (eq_ℤ (fs_create_file s.fs s.kernel.tick (some (arg argv 1))).0 (pos 0)) made
        made)

pub cmd_mkdir_shell-IsKept :
    (s : System) (argv : List (List ℕ)) → IsSound s → IsKept (cmd_mkdir_shell s argv)
unfolding cmd_mkdir_shell fs_call
cmd_mkdir_shell-IsKept s argv v =
    let made = keep_files s (mkdir (some (arg argv 1))) v in
    if_all IsKept (ltb (length argv) 2) v
      (if_all IsKept (eq_ℤ (fs_mkdir s.fs s.kernel.tick (some (arg argv 1))).0 (pos 0)) made made)

pub cmd_write_file-IsKept :
    (s : System) (local : List ℕ) (argv : List (List ℕ))
    → IsSound s
    → IsKept (cmd_write_file s local argv)
unfolding cmd_write_file fs_call
cmd_write_file-IsKept s local argv v =
    let bytes = line_of local (drop 2 argv) in
    let made = keep_files s (write_file (arg argv 1) bytes (strlen bytes)) v in
    if_all IsKept (ltb (length argv) 3) v
      (if_all IsKept (is_neg (fs_write_file s.fs (arg argv 1) bytes (strlen bytes)).0) made made)

pub cmd_rm-IsKept : (s : System) (argv : List (List ℕ)) → IsSound s → IsKept (cmd_rm s argv)
unfolding cmd_rm fs_call
cmd_rm-IsKept s argv v =
    let gone = keep_files s (delete (arg argv 1)) v in
    if_all IsKept (ltb (length argv) 2) v
      (if_all IsKept (eq_ℤ (fs_delete s.fs (arg argv 1)).0 (pos 0)) gone gone)

pub cmd_cd-IsKept : (s : System) (argv : List (List ℕ)) → IsSound s → IsKept (cmd_cd s argv)
unfolding cmd_cd fs_call
cmd_cd-IsKept s argv v =
    let moved = keep_files s (cd (arg argv 1)) v in
    if_all IsKept (ltb (length argv) 2) (keep_files s (cd (codes "/")) v)
      (if_all IsKept (is_neg (fs_cd s.fs (arg argv 1)).0) moved moved)

pub show_notes-IsKept : (s : System) (local : List ℕ) → IsSound s → IsKept (show_notes s local)
unfolding show_notes
show_notes-IsKept s local v = if_all IsKept (is_neg (fs_read_file s.fs notes local 4096).0) v v

pub cmd_note-Ends :
    (s : System) (local local' : List ℕ) (argv : List (List ℕ))
    → IsSound s
    → Ends (perform_some (cmd_note s local local' argv))
unfolding cmd_note fs_call perform_some Ends
cmd_note-Ends s local local' argv v =
    let made = (fs_create_file s.fs s.kernel.tick (some notes)).1 in
    let v' = keep_files s (create_file (some notes)) v in
    let bytes = line_of local (drop 1 argv) in
    let all = strcat (fs_read_file made notes local' 4096).1 bytes in
    let P : Option (System × List Output) → Type 0 = λ left. Ends (perform_some left) in
    let grown = ltb_ℤ (pos 0) (fs_read_file made notes local' 4096).0 in
    if_all P (ltb (length argv) 2) (perform-Ends _ (show_notes-IsKept s local' v)) (
      if_all P (grown && leb 4096 (strlen (fs_read_file made notes local' 4096).1 + strlen bytes))
        tt
        (perform-Ends _ (
          if_all (λ (fs : Fs). IsSound (record s { fs = fs })) grown
            (keep_files (record s { fs = made }) (write_file notes all (strlen all)) v')
            (keep_files (record s { fs = made }) (write_file notes bytes (strlen bytes)) v'))))
