-- ===== src/Fs/Boot.antt =====
-- `fs_init` of src/fs.c, and the calls of the ramdisk in any order.
use my_misu_os.Base.{ℕ, true, Option, some, List, [], ◌∷◌, ◌++◌, set, replicate, ℤ, neg, codes}
use my_misu_os.CStrings.{strlen, strcpy}
use my_misu_os.Fs.{fs_max_files, fs_max_fds, fs_type_dir, Node, Fs, zero_node, zero_fd}
use my_misu_os.Fs.Named.{
  fs_mkdir, fs_create_file, fs_write_file, fs_delete, fs_cd, fs_unlink, fs_rmdir,
}
use my_misu_os.Fs.Descriptors.{fs_open, fs_close, fs_read_fd, fs_write_fd, fs_lseek}

-- The assignments to `fs_nodes[0]`.
unfoldable pub root_node : Node
unfolding zero_node
root_node = record zero_node {
  name = strcpy zero_node.name (codes "/");
  type = fs_type_dir;
  parent = neg 1;
  in_use = true;
  created_tick = 0;
}

-- The tables after the two `memset`s, the loop over the descriptors and the root. `current_dir` keeps
-- its value, which is 0 when the kernel starts.
unfoldable pub blank_tables : ℕ → Fs
blank_tables current_dir = record {
  nodes = set (replicate fs_max_files zero_node) 0 root_node;
  fd_table = replicate fs_max_fds (record zero_fd { node_idx = neg 1 });
  current_dir = current_dir;
}

-- MYMISU_VERSION of src/version.h
abbrev pub mymisu_version : List ℕ
mymisu_version = codes "v2.0.6"

abbrev pub welcome : List ℕ
welcome =
    codes "Welcome to MyMisu OS!"
    ++ 10 ∷ codes "This is a simple ramdisk filesystem."
    ++ 10 ∷ codes "Type 'help' for commands."
    ++ 10 ∷ []

unfoldable pub make_dir : ℕ → List ℕ → Fs → Fs
make_dir now name s = (fs_mkdir s now (some name)).1

-- `fs_create_file(name); fs_write_file(name, bytes, strlen(bytes))`, whose results are ignored.
unfoldable pub make_file : ℕ → List ℕ → List ℕ → Fs → Fs
make_file now name bytes s =
    (fs_write_file (fs_create_file s now (some name)).1 name bytes (strlen bytes)).1

unfoldable pub fs_init : Fs → ℕ → Fs
fs_init s now =
    let dirs = make_dir now (codes "tmp") (
      make_dir now (codes "etc")
        (make_dir now (codes "bin") (make_dir now (codes "home") (blank_tables s.current_dir)))) in
    make_file now (codes "version") (codes "MyMisu OS " ++ mymisu_version) (
      make_file now (codes "hostname") (codes "misu-pc")
        (make_file now (codes "readme.txt") welcome dirs))

-- The calls that change the ramdisk. What a caller's pointer refers to is given with the call.
pub data FsCall : Type 0 where
  mkdir : Option (List ℕ) → FsCall
  create_file : Option (List ℕ) → FsCall
  write_file : List ℕ → List ℕ → ℕ → FsCall
  delete : List ℕ → FsCall
  cd : List ℕ → FsCall
  open_file : Option (List ℕ) → ℕ → FsCall
  close : ℤ → FsCall
  read_fd : ℤ → Option (List ℕ) → ℕ → FsCall
  write_fd : ℤ → Option (List ℕ) → ℕ → FsCall
  lseek : ℤ → ℤ → ℤ → FsCall
  unlink : List ℕ → FsCall
  rmdir : List ℕ → FsCall

-- The state after a call at tick `now`.
unfoldable pub fs_call : Fs → ℕ → FsCall → Fs
fs_call s now (mkdir name) = (fs_mkdir s now name).1
fs_call s now (create_file name) = (fs_create_file s now name).1
fs_call s now (write_file name bytes len) = (fs_write_file s name bytes len).1
fs_call s now (delete name) = (fs_delete s name).1
fs_call s now (cd name) = (fs_cd s name).1
fs_call s now (open_file name flags) = (fs_open s now name flags).1
fs_call s now (close fd) = (fs_close s fd).1
fs_call s now (read_fd fd buf n) = (fs_read_fd s fd buf n).2
fs_call s now (write_fd fd buf n) = (fs_write_fd s fd buf n).1
fs_call s now (lseek fd offset whence) = (fs_lseek s fd offset whence).1
fs_call s now (unlink name) = (fs_unlink s name).1
fs_call s now (rmdir name) = (fs_rmdir s name).1

-- Calls one after another, each with its tick.
unfoldable pub fs_run : Fs → List (ℕ × FsCall) → Fs
fs_run s [] = s
fs_run s ((now, c) ∷ cs) = fs_run (fs_call s now c) cs
