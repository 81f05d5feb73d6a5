-- ===== src/Fs/Sizes.antt =====
-- The sizes of src/fs.c: the arrays keep their lengths, and every size, offset and node index that
-- the code keeps stays inside them.
pub mod Calls
use my_misu_os.Base.{
  ℕ, zero, suc, ◌+◌, ◌-◌, ◌*◌, ◌/◌, ◌%◌, ◌^◌, ◌≤◌, ◌<◌, bit_and, bit_or, bit_xor, min, ◌≡◌, refl,
  sym, ap, ap₂, subst, ◌∙◌, ◌≢◌, ◌↔◌, ◌⊎◌, inl, inr, Bool, true, false, not, ◌&&◌, ◌||◌, Option,
  none, some, List, [], ◌∷◌, ◌++◌, map, arith, ltb, leb, ◌==◌, if◌then◌else◌, ltb→lt, lt→ltb,
  leb→le, ==_iff, ==_self, Bool-cases, Option-cases, all_below, all_below_sound, length, get_or,
  set, take, drop, replicate, at_offset, length-set, get_or-set, set-set, get_or_default,
  length-append, length-take, length-drop, length-replicate, get_or-replicate, take_of_le,
  length-at_offset, drop-at_offset, get_or-at_offset_lt, ℤ, pos, negsuc, pos_part, neg_part, neg,
  sub_ℕ, ◌+ℤ◌, is_neg, ltb_ℤ, eq_ℤ, eq_ℤ_iff, signed32, pattern32, find_from, count_if, IsFirst,
  find_from-some, find_from-none, codes, set_default, get_or-set_all,
}
use my_misu_os.CStrings.Copy.{length-strncpy, length-memcpy}
use my_misu_os.Fs.{
  fs_max_files, fs_max_name, fs_max_data, fs_max_fds, Node, FdEntry, Fs, zero_node, zero_fd, node,
  fd_entry, put_node, put_fd,
}
use my_misu_os.Fs.Named.{copy_name}
use my_misu_os.CStrings.{strncpy, memcpy}

-- The size leaves room for the terminator that the code writes behind the data.
pub record NodeFits (n : Node) : Type 0 where
  pub name_len : length n.name ≡ fs_max_name
  pub content_len : length n.content ≡ fs_max_data
  pub size_le : n.size ≤ fs_max_data - 1

pub record FdFits (f : FdEntry) : Type 0 where
  pub offset_le : f.offset ≤ fs_max_data - 1
  pub has_node : f.in_use ≡ true → f.node_idx ≡ pos (pos_part f.node_idx)
  pub node_lt : pos_part f.node_idx < fs_max_files

pub record IsSized (s : Fs) : Type 0 where
  pub nodes_len : length s.nodes ≡ fs_max_files
  pub fds_len : length s.fd_table ≡ fs_max_fds
  pub node_fits : (i : ℕ) → NodeFits (node s i)
  pub fd_fits : (i : ℕ) → FdFits (fd_entry s i)

pub zero_node-NodeFits : NodeFits zero_node
unfolding zero_node
zero_node-NodeFits = record {
  name_len = length-replicate {A = ℕ} 32 0;
  content_len = length-replicate {A = ℕ} 4096 0;
  size_le = omega arith;
}

pub zero_fd-FdFits : FdFits zero_fd
unfolding zero_fd
zero_fd-FdFits = ground arith

pub put_node-IsSized :
    {s : Fs} (i : ℕ) (n : Node) → IsSized s → NodeFits n → IsSized (put_node s i n)
put_node-IsSized {s} i n v f = record {
  nodes_len = length-set s.nodes i n ∙ v.nodes_len;
  fds_len = v.fds_len;
  node_fits = get_or-set_all NodeFits s.nodes i n zero_node f v.node_fits;
  fd_fits = v.fd_fits;
}

pub put_fd-IsSized : {s : Fs} (i : ℕ) (f : FdEntry) → IsSized s → FdFits f → IsSized (put_fd s i f)
put_fd-IsSized {s} i f v g = record {
  nodes_len = v.nodes_len;
  fds_len = length-set s.fd_table i f ∙ v.fds_len;
  node_fits = v.node_fits;
  fd_fits = get_or-set_all FdFits s.fd_table i f zero_fd g v.fd_fits;
}

pub cd-IsSized : {s : Fs} (dir : ℕ) → IsSized s → IsSized (record s { current_dir = dir })
cd-IsSized dir v = record {
  nodes_len = v.nodes_len;
  fds_len = v.fds_len;
  node_fits = v.node_fits;
  fd_fits = v.fd_fits;
}

pub length-copy_name : (dest name : List ℕ) → length (copy_name dest name) ≡ length dest
unfolding copy_name
length-copy_name dest name = length-set (strncpy dest name 31) 31 0 ∙ length-strncpy dest name 31

pub length-set-memcpy :
    (dest src : List ℕ) (n i v : ℕ) → length (set (memcpy dest src n) i v) ≡ length dest
length-set-memcpy dest src n i v = length-set (memcpy dest src n) i v ∙ length-memcpy dest src n

pub length-set-at_offset :
    (dest src : List ℕ) (off n i v : ℕ)
    → length (set (at_offset off (λ p. memcpy p src n) dest) i v) ≡ length dest
length-set-at_offset dest src off n i v =
    length-set (at_offset off (λ p. memcpy p src n) dest) i v
    ∙ length-at_offset off (λ p. memcpy p src n) dest (λ ys. length-memcpy ys src n)
