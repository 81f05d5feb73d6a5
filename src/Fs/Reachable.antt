-- ===== src/Fs/Reachable.antt =====
-- The ramdisk after `fs_init` and any sequence of calls.
use my_misu_os.Base.{get_or-replicate_all}
use my_misu_os.Base.{
  ℕ, zero, suc, ◌≡◌, refl, sym, ap, ◌∙◌, true, some, List, [], ◌∷◌, arith, ◌==◌, if◌then◌else◌,
  replicate, length-set, length-replicate, get_or-replicate, neg, codes, get_or-set_all,
}
use my_misu_os.CStrings.{strlen}
use my_misu_os.Fs.{Node, Fs, zero_node, zero_fd, node}
use my_misu_os.Fs.Tables.{zero_fd-in_use}
use my_misu_os.CStrings.Copy.{length-strcpy}
use my_misu_os.Fs.Boot.{
  root_node, blank_tables, make_dir, make_file, fs_init, FsCall, mkdir, create_file, write_file,
  delete, cd, open_file, close, read_fd, write_fd, lseek, unlink, rmdir, fs_call, fs_run,
}
use my_misu_os.Fs.Sizes.{IsSized, NodeFits, FdFits, zero_node-NodeFits, zero_fd-FdFits}
use my_misu_os.Fs.Sizes.Calls.{
  fs_mkdir-IsSized, fs_create_file-IsSized, fs_write_file-IsSized, fs_delete-IsSized, fs_cd-IsSized,
  fs_open-IsSized, fs_close-IsSized, fs_read_fd-IsSized, fs_write_fd-IsSized, fs_lseek-IsSized,
  fs_unlink-IsSized, fs_rmdir-IsSized,
}
use my_misu_os.Fs.Tree.{IsTree, at_root}
use my_misu_os.Fs.Tree.Entries.{fs_mkdir-IsTree, fs_create_file-IsTree, fs_write_file-IsTree}
use my_misu_os.Fs.Tree.Drops.{fs_delete-IsTree, fs_cd-IsTree, fs_unlink-IsTree, fs_rmdir-IsTree}
use my_misu_os.Fs.Tree.Descriptors.{
  fs_open-IsTree, fs_close-IsTree, fs_read_fd-IsTree, fs_write_fd-IsTree, fs_lseek-IsTree,
}

-- What every call keeps true of the ramdisk.
pub record IsValid (s : Fs) : Type 0 where
  pub sized : IsSized s
  pub tree : IsTree s

fs_call-IsSized : (s : Fs) (now : ℕ) (c : FsCall) → IsSized s → IsSized (fs_call s now c)
unfolding fs_call
fs_call-IsSized s now (mkdir name) v = fs_mkdir-IsSized now name v
fs_call-IsSized s now (create_file name) v = fs_create_file-IsSized now name v
fs_call-IsSized s now (write_file name bytes len) v = fs_write_file-IsSized name bytes len v
fs_call-IsSized s now (delete name) v = fs_delete-IsSized name v
fs_call-IsSized s now (cd name) v = fs_cd-IsSized name v
fs_call-IsSized s now (open_file name flags) v = fs_open-IsSized now name flags v
fs_call-IsSized s now (close fd) v = fs_close-IsSized fd v
fs_call-IsSized s now (read_fd fd buf n) v = fs_read_fd-IsSized fd buf n v
fs_call-IsSized s now (write_fd fd buf n) v = fs_write_fd-IsSized fd buf n v
fs_call-IsSized s now (lseek fd offset whence) v = fs_lseek-IsSized fd offset whence v
fs_call-IsSized s now (unlink name) v = fs_unlink-IsSized name v
fs_call-IsSized s now (rmdir name) v = fs_rmdir-IsSized name v

fs_call-IsTree : (s : Fs) (now : ℕ) (c : FsCall) → IsValid s → IsTree (fs_call s now c)
unfolding fs_call
fs_call-IsTree s now (mkdir name) v = fs_mkdir-IsTree now name v.tree v.sized
fs_call-IsTree s now (create_file name) v = fs_create_file-IsTree now name v.tree v.sized
fs_call-IsTree s now (write_file name bytes len) v = fs_write_file-IsTree name bytes len v.tree
fs_call-IsTree s now (delete name) v = fs_delete-IsTree name v.tree
fs_call-IsTree s now (cd name) v = fs_cd-IsTree name v.tree
fs_call-IsTree s now (open_file name flags) v = fs_open-IsTree now name flags v.tree v.sized
fs_call-IsTree s now (close fd) v = fs_close-IsTree fd v.tree
fs_call-IsTree s now (read_fd fd buf n) v = fs_read_fd-IsTree fd buf n v.tree
fs_call-IsTree s now (write_fd fd buf n) v = fs_write_fd-IsTree fd buf n v.tree
fs_call-IsTree s now (lseek fd offset whence) v = fs_lseek-IsTree fd offset whence v.tree
fs_call-IsTree s now (unlink name) v = fs_unlink-IsTree name v.tree
fs_call-IsTree s now (rmdir name) v = fs_rmdir-IsTree name v.tree

-- Every call, whatever it returns, keeps the ramdisk valid: the arrays keep their lengths and every
-- size, offset and node index stays in range; and the entries in use form a tree of directories with
-- distinct names under the root, in which the current directory is a directory in use.
pub fs_call-IsValid : (s : Fs) (now : ℕ) (c : FsCall) → IsValid s → IsValid (fs_call s now c)
fs_call-IsValid s now c v = record {
  sized = fs_call-IsSized s now c v.sized;
  tree = fs_call-IsTree s now c v;
}

fs_run-IsValid : (cs : List (ℕ × FsCall)) (s : Fs) → IsValid s → IsValid (fs_run s cs)
unfolding fs_run
fs_run-IsValid [] s v = v
fs_run-IsValid ((now, c) ∷ cs) s v = fs_run-IsValid cs (fs_call s now c) (fs_call-IsValid s now c v)

node-blank : (dir i : ℕ) → node (blank_tables dir) i ≡ (if 0 == i then root_node else zero_node)
unfolding blank_tables
node-blank dir zero = refl
node-blank dir (suc i) = ground (arith, get_or-replicate 63 i zero_node)

blank-in_use : (dir i : ℕ) → (node (blank_tables dir) i).in_use ≡ true → i ≡ 0
unfolding zero_node
blank-in_use dir i h = ground (arith, node-blank dir i)

blank-IsTree : IsTree (blank_tables 0)
unfolding root_node blank_tables
blank-IsTree = record {
  root_used = ap (λ (n : Node). n.in_use) (node-blank 0 0);
  root_dir = ap (λ (n : Node). n.type) (node-blank 0 0);
  root_top = ap (λ (n : Node). n.parent) (node-blank 0 0);
  cwd_used = ap (λ (n : Node). n.in_use) (node-blank 0 0);
  cwd_dir = ap (λ (n : Node). n.type) (node-blank 0 0);
  placed = λ i u ne. absurd (ne (blank-in_use 0 i u));
  rooted = λ i u. at_root (blank-in_use 0 i u);
  distinct = λ i j u v _ _. blank-in_use 0 i u ∙ sym (blank-in_use 0 j v);
}

blank-IsSized : (dir : ℕ) → IsSized (blank_tables dir)
unfolding blank_tables root_node
blank-IsSized dir =
    let z = zero_node-NodeFits in
    let root : NodeFits root_node = record {
      name_len = length-strcpy zero_node.name (codes "/") ∙ z.name_len;
      content_len = z.content_len;
      size_le = z.size_le;
    } in
    let f = zero_fd-FdFits in
    let unset : FdFits (record zero_fd { node_idx = neg 1 }) = record {
      offset_le = f.offset_le;
      has_node = λ u. cc (zero_fd-in_use);
      node_lt = omega arith;
    } in
    record {
      nodes_len = length-set (replicate 64 zero_node) 0 root_node ∙ length-replicate 64 zero_node;
      fds_len = refl;
      node_fits =
          get_or-set_all NodeFits (replicate 64 zero_node) 0 root_node zero_node root
            (λ j. get_or-replicate_all NodeFits 64 j zero_node zero_node z z);
      fd_fits = λ i. get_or-replicate_all FdFits 16 i _ zero_fd unset f;
    }

make_dir-IsValid : (now : ℕ) (name : List ℕ) {s : Fs} → IsValid s → IsValid (make_dir now name s)
unfolding make_dir fs_call
make_dir-IsValid now name {s} v = fs_call-IsValid s now (mkdir (some name)) v

make_file-IsValid :
    (now : ℕ) (name bytes : List ℕ) {s : Fs} → IsValid s → IsValid (make_file now name bytes s)
unfolding make_file fs_call
make_file-IsValid now name bytes {s} v =
    fs_call-IsValid (fs_call s now (create_file (some name))) now
      (write_file name bytes (strlen bytes)) (fs_call-IsValid s now (create_file (some name)) v)

pub fs_init-IsValid : (s : Fs) (now : ℕ) → s.current_dir ≡ 0 → IsValid (fs_init s now)
unfolding fs_init
fs_init-IsValid s now e =
    let start : IsValid (blank_tables s.current_dir) =
      rw e (record { sized = blank-IsSized 0; tree = blank-IsTree }) in
    make_file-IsValid now _ _ (
      make_file-IsValid now _ _ (
        make_file-IsValid now _ _ (
          make_dir-IsValid now _
            (make_dir-IsValid now _ (make_dir-IsValid now _ (make_dir-IsValid now _ start))))))

-- The ramdisk is valid after `fs_init` at boot, when the current directory is entry 0, and any
-- sequence of calls with any arguments.
pub reachable-IsValid :
    (s : Fs) (now : ℕ) (cs : List (ℕ × FsCall))
    → s.current_dir ≡ 0
    → IsValid (fs_run (fs_init s now) cs)
reachable-IsValid s now cs e = fs_run-IsValid cs (fs_init s now) (fs_init-IsValid s now e)
