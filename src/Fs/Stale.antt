-- ===== src/Fs/Stale.antt =====
-- Descriptors of src/fs.c that outlive their file.
use my_misu_os.Base.{
  ℕ, ◌<◌, ◌≡◌, ap, false, Option, some, List, arith, length, ℤ, pos, get_or-set_self,
}
use my_misu_os.Fs.{Fs, Node, node, find_node, zero_node}
use my_misu_os.Fs.Tables.{find_node-some}
use my_misu_os.Fs.Named.{fs_unlink, drop_node}
use my_misu_os.Fs.Descriptors.{bad_fd, fd_node, fs_read_fd, read_at}

-- Two reads return the same number and leave the same buffer.
pub record SameRead (a b : ℤ × Option (List ℕ) × Fs) : Type 0 where
  pub result : a.0 ≡ b.0
  pub buffer : a.1 ≡ b.1

unlink-drop :
    (s : Fs) (name : List ℕ) {k : ℕ}
    → find_node s name ≡ some k
    → (fs_unlink s name).0 ≡ pos 0
    → (fs_unlink s name).1 ≡ drop_node s k
unfolding fs_unlink
unlink-drop s name found ok = ground arith

module _ (s : Fs) (i : ℕ) (lt : fd_node s i < length s.nodes) where
  node-dropped :
      node (drop_node s (fd_node s i)) (fd_node s i)
      ≡ record (node s (fd_node s i)) { in_use = false }
  unfolding drop_node
  node-dropped = get_or-set_self s.nodes (fd_node s i) _ zero_node lt

  gone : (node (drop_node s (fd_node s i)) (fd_node s i)).in_use ≡ false
  gone = ap (λ (n : Node). n.in_use) node-dropped

  same_read :
      (buf : List ℕ) (n : ℕ)
      → SameRead
          (fs_read_fd (drop_node s (fd_node s i)) (pos i) (some buf) n)
          (fs_read_fd s (pos i) (some buf) n)
  unfolding fs_read_fd read_at bad_fd drop_node
  same_read buf n =
      let size = ap (λ (m : Node). m.size) node-dropped in
      let content = ap (λ (m : Node). m.content) node-dropped in ground arith

-- `fs_unlink` of a file that a descriptor is open on: the descriptor stays usable, though the node that
-- it names is no longer in use, and reads through it still return what they returned before.
pub unlink_leaves_open :
    (s : Fs) (name : List ℕ) (i : ℕ)
    → find_node s name ≡ some (fd_node s i)
    → bad_fd s (pos i) ≡ false
    → (fs_unlink s name).0 ≡ pos 0
    → let s' = (fs_unlink s name).1 in
      (bad_fd s' (pos i) ≡ false)
      × ((node s' (fd_node s' i)).in_use ≡ false)
      × ((buf : List ℕ) (n : ℕ)
          → SameRead (fs_read_fd s' (pos i) (some buf) n) (fs_read_fd s (pos i) (some buf) n))
unfolding drop_node bad_fd
unlink_leaves_open s name i found good ok =
    let lt = (find_node-some s name found).0 in
    let e : (fs_unlink s name).1 ≡ drop_node s (fd_node s i) = unlink-drop s name found ok in
    rw e (good, gone s i lt, λ buf n. same_read s i lt buf n)
