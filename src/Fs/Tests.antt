-- ===== src/Fs/Tests.antt =====
-- The ramdisk of src/fs.c after boot, and the laws of its calls at work on it.
use my_misu_os.Base.{
  ℕ, bit_and, ◌≡◌, refl, true, false, some, List, [], ◌∷◌, ◌++◌, arith, take, drop, replicate,
  at_offset, pos, neg, ◌+ℤ◌, find_from, codes,
}
use my_misu_os.CStrings.{strlen, strcmp, strcpy, memcpy, memset, strncpy}
use my_misu_os.Fs.{
  zero_node, zero_fd, is_free, is_free_fd, is_named, find_free_node, find_node, find_free_fd,
}
use my_misu_os.Fs.Named.{
  copy_name, new_dir, new_file, fs_mkdir, fs_create_file, write_node, fs_write_file, fs_unlink,
  drop_node, fs_delete,
}
use my_misu_os.Fs.Descriptors.{has_flag, truncate, new_fd, open_node, open_created, fs_open, bad_fd}
use my_misu_os.Fs.Boot.{root_node, blank_tables, make_dir, make_file, fs_init, fs_call, fs_run}
use my_misu_os.Errno.{eexist}
use my_misu_os.Fs.{Fs, fs_max_files, fs_max_fds, fs_type_dir, node, fd_entry}
use my_misu_os.Fs.Named.{FsStat, fs_stat}
use my_misu_os.Fs.Descriptors.{
  o_rdwr, o_creat, o_append, fs_read_fd, fs_write_fd, fs_lseek, fd_node,
}
use my_misu_os.Fs.Boot.{FsCall}
use my_misu_os.Fs.Reachable.{IsValid, fs_call-IsValid, fs_init-IsValid, reachable-IsValid}
use my_misu_os.Fs.Io.{IsRdwr, write-lseek-read}
use my_misu_os.Fs.Lookup.{mkdir-stat}
use my_misu_os.Fs.Seek.{Whence, whence_code, base_of, seek_answer, fs_lseek_exact}
use my_misu_os.Fs.Stale.{SameRead, unlink_leaves_open}

-- Static storage before `fs_init`.
abbrev start : Fs
start = record {
  nodes = replicate fs_max_files zero_node;
  fd_table = replicate fs_max_fds zero_fd;
  current_dir = 0;
}

abbrev readme : List ℕ
readme = codes "readme.txt"

abbrev no_stat : FsStat
no_stat = record { type = 0; size = 0; created_tick = 0; parent = pos 0 }

-- A file is made and opened for reading and writing: descriptor 0.
abbrev steps : List (ℕ × FsCall)
steps = (5, FsCall.open_file (some (codes "notes")) 0x42) ∷ []

abbrev opened : Fs
opened = fs_run (fs_init start 0) steps

abbrev booted : Fs
booted = fs_init start 0

booted-IsValid : IsValid booted
booted-IsValid = fs_init-IsValid start 0 refl

opened-IsValid : IsValid opened
opened-IsValid = reachable-IsValid start 0 steps refl

opened_used : (fd_entry opened 0).in_use ≡ true
unfolding strlen strcmp strcpy memcpy memset strncpy zero_node zero_fd is_free is_free_fd is_named
    find_free_node find_node find_free_fd copy_name new_dir new_file fs_mkdir fs_create_file
    write_node fs_write_file fs_unlink drop_node fs_delete has_flag truncate new_fd open_node
    open_created fs_open bad_fd root_node blank_tables make_dir make_file fs_init fs_call fs_run
    find_from at_offset
opened_used = refl

opened_rdwr : bit_and (fd_entry opened 0).flags 3 ≡ 2
unfolding strlen strcmp strcpy memcpy memset strncpy zero_node zero_fd is_free is_free_fd is_named
    find_free_node find_node find_free_fd copy_name new_dir new_file fs_mkdir fs_create_file
    write_node fs_write_file fs_unlink drop_node fs_delete has_flag truncate new_fd open_node
    open_created fs_open bad_fd root_node blank_tables make_dir make_file fs_init fs_call fs_run
    find_from at_offset
opened_rdwr = refl

opened_plain : has_flag (fd_entry opened 0).flags o_append ≡ false
unfolding strlen strcmp strcpy memcpy memset strncpy zero_node zero_fd is_free is_free_fd is_named
    find_free_node find_node find_free_fd copy_name new_dir new_file fs_mkdir fs_create_file
    write_node fs_write_file fs_unlink drop_node fs_delete has_flag truncate new_fd open_node
    open_created fs_open bad_fd root_node blank_tables make_dir make_file fs_init fs_call fs_run
    find_from at_offset
opened_plain = refl

opened_offset : (fd_entry opened 0).offset ≡ 0
unfolding strlen strcmp strcpy memcpy memset strncpy zero_node zero_fd is_free is_free_fd is_named
    find_free_node find_node find_free_fd copy_name new_dir new_file fs_mkdir fs_create_file
    write_node fs_write_file fs_unlink drop_node fs_delete has_flag truncate new_fd open_node
    open_created fs_open bad_fd root_node blank_tables make_dir make_file fs_init fs_call fs_run
    find_from at_offset
opened_offset = refl

opened_found : find_node opened (codes "notes") ≡ some (fd_node opened 0)
unfolding strlen strcmp strcpy memcpy memset strncpy zero_node zero_fd is_free is_free_fd is_named
    find_free_node find_node find_free_fd copy_name new_dir new_file fs_mkdir fs_create_file
    write_node fs_write_file fs_unlink drop_node fs_delete has_flag truncate new_fd open_node
    open_created fs_open bad_fd root_node blank_tables make_dir make_file fs_init fs_call fs_run
    find_from at_offset
opened_found = refl

opened_good : bad_fd opened (pos 0) ≡ false
unfolding strlen strcmp strcpy memcpy memset strncpy zero_node zero_fd is_free is_free_fd is_named
    find_free_node find_node find_free_fd copy_name new_dir new_file fs_mkdir fs_create_file
    write_node fs_write_file fs_unlink drop_node fs_delete has_flag truncate new_fd open_node
    open_created fs_open bad_fd root_node blank_tables make_dir make_file fs_init fs_call fs_run
    find_from at_offset
opened_good = refl

opened_unlink : (fs_unlink opened (codes "notes")).0 ≡ pos 0
unfolding strlen strcmp strcpy memcpy memset strncpy zero_node zero_fd is_free is_free_fd is_named
    find_free_node find_node find_free_fd copy_name new_dir new_file fs_mkdir fs_create_file
    write_node fs_write_file fs_unlink drop_node fs_delete has_flag truncate new_fd open_node
    open_created fs_open bad_fd root_node blank_tables make_dir make_file fs_init fs_call fs_run
    find_from at_offset
opened_unlink = refl

booted_mkdir : (fs_mkdir booted 7 (some (codes "docs"))).0 ≡ pos 0
unfolding strlen strcmp strcpy memcpy memset strncpy zero_node zero_fd is_free is_free_fd is_named
    find_free_node find_node find_free_fd copy_name new_dir new_file fs_mkdir fs_create_file
    write_node fs_write_file fs_unlink drop_node fs_delete has_flag truncate new_fd open_node
    open_created fs_open bad_fd root_node blank_tables make_dir make_file fs_init fs_call fs_run
    find_from at_offset
booted_mkdir = refl

booted_unlink : (fs_unlink booted readme).0 ≡ pos 0
unfolding strlen strcmp strcpy memcpy memset strncpy zero_node zero_fd is_free is_free_fd is_named
    find_free_node find_node find_free_fd copy_name new_dir new_file fs_mkdir fs_create_file
    write_node fs_write_file fs_unlink drop_node fs_delete has_flag truncate new_fd open_node
    open_created fs_open bad_fd root_node blank_tables make_dir make_file fs_init fs_call fs_run
    find_from at_offset
booted_unlink = refl

no_creat : has_flag o_rdwr o_creat ≡ false
unfolding strlen strcmp strcpy memcpy memset strncpy zero_node zero_fd is_free is_free_fd is_named
    find_free_node find_node find_free_fd copy_name new_dir new_file fs_mkdir fs_create_file
    write_node fs_write_file fs_unlink drop_node fs_delete has_flag truncate new_fd open_node
    open_created fs_open bad_fd root_node blank_tables make_dir make_file fs_init fs_call fs_run
    find_from at_offset
no_creat = refl

opened-IsRdwr : IsRdwr opened 0
opened-IsRdwr = record {
  fd_lt = omega arith;
  used = opened_used;
  rdwr = opened_rdwr;
  plain = opened_plain;
}

fs_call-IsValid_example : IsValid (fs_call booted 3 (FsCall.rmdir (codes "home")))
fs_call-IsValid_example = fs_call-IsValid booted 3 (FsCall.rmdir (codes "home")) booted-IsValid

reachable-IsValid_example : IsValid (fs_run (fs_init start 0) steps)
reachable-IsValid_example = reachable-IsValid start 0 steps refl

mkdir-stat_example :
    let s' = (fs_mkdir booted 7 (some (codes "docs"))).1 in
    (fs_stat s' (some (codes "docs")) (some no_stat) ≡ (
      pos 0,
      some (record {
        type = fs_type_dir;
        size = 0;
        created_tick = 7;
        parent = pos booted.current_dir;
      }),
    ))
    × (fs_mkdir s' 8 (some (codes "docs")) ≡ (neg eexist, s'))
mkdir-stat_example = mkdir-stat {s = booted} 7 8 (codes "docs") no_stat booted-IsValid booted_mkdir

fs_lseek_exact_example :
    fs_lseek opened (pos 0) (pos 5) (whence_code Whence.seek_set)
    ≡ seek_answer opened 0 (pos (base_of opened 0 Whence.seek_set) +ℤ pos 5)
fs_lseek_exact_example =
    fs_lseek_exact {s = opened} 0 (pos 5) Whence.seek_set opened-IsValid.sized (omega arith)
      opened_used (omega arith) (omega arith)

write-lseek-read_example :
    let (w, s1) = fs_write_fd opened (pos 0) (some (codes "hello")) 5 in
    let (p, s2) = fs_lseek s1 (pos 0) (pos (fd_entry opened 0).offset) (pos 0) in
    let (r, out, _) = fs_read_fd s2 (pos 0) (some (replicate 8 0)) 5 in
    (w ≡ pos 5)
    × (p ≡ pos (fd_entry opened 0).offset)
    × (r ≡ pos 5)
    × (out ≡ some (take 5 (codes "hello") ++ drop 5 (replicate 8 0)))
write-lseek-read_example =
    write-lseek-read opened 0 (codes "hello") 5 opened-IsValid.sized opened-IsRdwr
      (omega (arith, opened_offset)) (omega arith) (replicate 8 0) (omega arith) (omega arith)

unlink_leaves_open_example :
    let s' = (fs_unlink opened (codes "notes")).1 in
    (bad_fd s' (pos 0) ≡ false)
    × ((node s' (fd_node s' 0)).in_use ≡ false)
    × ((buf : List ℕ) (n : ℕ)
        → SameRead (fs_read_fd s' (pos 0) (some buf) n) (fs_read_fd opened (pos 0) (some buf) n))
unlink_leaves_open_example =
    unlink_leaves_open opened (codes "notes") 0 opened_found opened_good opened_unlink
