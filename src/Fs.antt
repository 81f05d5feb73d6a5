-- ===== src/Fs.antt =====
-- src/fs.c and src/fs.h: the state of the ramdisk and its table searches. The three static variables
-- of fs.c are the fields of `Fs`; an index that the code keeps in an `int` and tests against -1 is an
-- `Option ℕ`, and a pointer that it tests against NULL an `Option` of the bytes it points to.
mod Tests
pub mod Named
pub mod Descriptors
pub mod Tables
pub mod Boot
pub mod Reachable
pub mod Io
pub mod Lookup
pub mod Seek
pub mod Stale
pub mod Sizes
pub mod Tree
use my_misu_os.Base.{
  ℕ, Bool, true, false, not, ◌&&◌, Option, none, some, List, get_or, set, drop, replicate, ℤ, pos,
  eq_ℤ, find_from,
}
use my_misu_os.CStrings.{strcmp}

abbrev pub fs_max_files : ℕ
fs_max_files = 64

abbrev pub fs_max_name : ℕ
fs_max_name = 32

abbrev pub fs_max_data : ℕ
fs_max_data = 4096

abbrev pub fs_max_fds : ℕ
fs_max_fds = 16

abbrev pub fs_type_file : ℕ
fs_type_file = 1

abbrev pub fs_type_dir : ℕ
fs_type_dir = 2

-- `fs_node_t`. `content` is the field `data`, which is a reserved word here.
pub record Node : Type 0 where
  pub name : List ℕ
  pub type : ℕ
  pub size : ℕ
  pub content : List ℕ
  pub parent : ℤ
  pub in_use : Bool
  pub created_tick : ℕ

-- `fs_fd_t`
pub record FdEntry : Type 0 where
  pub node_idx : ℤ
  pub offset : ℕ
  pub flags : ℕ
  pub in_use : Bool

pub record Fs : Type 0 where
  pub nodes : List Node
  pub fd_table : List FdEntry
  pub current_dir : ℕ

-- What `memset(fs_nodes, 0, ...)` leaves in an entry.
unfoldable pub zero_node : Node
zero_node = record {
  name = replicate fs_max_name 0;
  type = 0;
  size = 0;
  content = replicate fs_max_data 0;
  parent = pos 0;
  in_use = false;
  created_tick = 0;
}

-- What `memset(fs_fd_table, 0, ...)` leaves in an entry.
unfoldable pub zero_fd : FdEntry
zero_fd = record { node_idx = pos 0; offset = 0; flags = 0; in_use = false }

-- `fs_nodes[i]` and `fs_fd_table[i]`, read and written.
abbrev pub node : Fs → ℕ → Node
node s i = get_or s.nodes i zero_node

abbrev pub fd_entry : Fs → ℕ → FdEntry
fd_entry s i = get_or s.fd_table i zero_fd

abbrev pub put_node : Fs → ℕ → Node → Fs
put_node s i n = record s { nodes = set s.nodes i n }

abbrev pub put_fd : Fs → ℕ → FdEntry → Fs
put_fd s i f = record s { fd_table = set s.fd_table i f }

unfoldable pub is_free : Node → Bool
is_free n = not n.in_use

unfoldable pub is_free_fd : FdEntry → Bool
is_free_fd f = not f.in_use

-- The test of `find_node`, in the directory `dir`.
unfoldable pub is_named : ℕ → List ℕ → Node → Bool
is_named dir name n = n.in_use && eq_ℤ (strcmp n.name name) (pos 0) && eq_ℤ n.parent (pos dir)

-- The test of the loops that look for an entry of a directory.
unfoldable pub is_child : ℕ → Node → Bool
is_child dir n = n.in_use && eq_ℤ n.parent (pos dir)

unfoldable pub find_free_node : Fs → Option ℕ
find_free_node s = find_from is_free 1 (drop 1 s.nodes)

unfoldable pub find_node : Fs → List ℕ → Option ℕ
find_node s name = find_from (is_named s.current_dir name) 0 s.nodes

unfoldable pub find_free_fd : Fs → Option ℕ
find_free_fd s = find_from is_free_fd 0 s.fd_table

-- The loop of `fs_delete` and `fs_rmdir` over the entries of the directory `idx`.
unfoldable pub has_child : Fs → ℕ → Bool
has_child s idx = elim (find_from (is_child idx) 0 s.nodes) [ none ↦ false | some _ ↦ true ]
