-- ===== src/Fs/Named.antt =====
-- The name-based calls of src/fs.c. A call returns its `int` and the new state; `now` is what
-- `timer_get_ticks()` returns during it.
use my_misu_os.Base.{
  codes, ℕ, ◌+◌, ◌-◌, ◌%◌, ◌^◌, true, false, not, ◌&&◌, Option, none, some, List, [], ◌∷◌, ltb, leb,
  ◌==◌, if◌then◌else◌, get_or, set, at_offset, ℤ, pos, negsuc, neg, eq_ℤ, signed32, count_if,
}
use my_misu_os.Errno.{
  enoent, eexist, enotdir, eisdir, einval, enospc, enametoolong, enotempty, efault,
}
use my_misu_os.CStrings.{strlen, strcmp, strncpy, memcpy}
use my_misu_os.Fs.{
  fs_max_name, fs_max_data, fs_type_file, fs_type_dir, Node, Fs, node, put_node, find_free_node,
  find_node, has_child, is_child,
}

-- `strncpy(name, src, FS_MAX_NAME - 1)` and the terminator.
unfoldable pub copy_name : List ℕ → List ℕ → List ℕ
copy_name dest name = set (strncpy dest name (fs_max_name - 1)) (fs_max_name - 1) 0

-- The entries that `fs_mkdir` and `fs_create_file` fill in; what they do not assign stays.
abbrev pub dir_node : Fs → ℕ → List ℕ → ℕ → Node
dir_node s now name idx = record (node s idx) {
  name = copy_name (node s idx).name name;
  type = fs_type_dir;
  size = 0;
  parent = pos s.current_dir;
  in_use = true;
  created_tick = now;
}

abbrev pub file_node : Fs → ℕ → List ℕ → ℕ → Node
file_node s now name idx = record (node s idx) {
  name = copy_name (node s idx).name name;
  type = fs_type_file;
  size = 0;
  content = set (node s idx).content 0 0;
  parent = pos s.current_dir;
  in_use = true;
  created_tick = now;
}

unfoldable pub new_dir : Fs → ℕ → List ℕ → ℕ → Fs
new_dir s now name idx = put_node s idx (dir_node s now name idx)

unfoldable pub new_file : Fs → ℕ → List ℕ → ℕ → Fs
new_file s now name idx = put_node s idx (file_node s now name idx)

unfoldable pub fs_mkdir : Fs → ℕ → Option (List ℕ) → ℤ × Fs
fs_mkdir s now none = (neg einval, s)
fs_mkdir s now (some name) =
    if get_or name 0 0 == 0
    then (neg einval, s)
    else if leb fs_max_name (strlen name)
    then (neg enametoolong, s)
    else elim (find_node s name) [
      | some _ ↦ (neg eexist, s)
      | none ↦ elim (find_free_node s) [
        | none ↦ (neg enospc, s)
        | some idx ↦ (pos 0, new_dir s now name idx)
      ]
    ]

unfoldable pub fs_create_file : Fs → ℕ → Option (List ℕ) → ℤ × Fs
fs_create_file s now none = (neg einval, s)
fs_create_file s now (some name) =
    if get_or name 0 0 == 0
    then (neg einval, s)
    else if leb fs_max_name (strlen name)
    then (neg enametoolong, s)
    else elim (find_node s name) [
      | some _ ↦ (neg eexist, s)
      | none ↦ elim (find_free_node s) [
        | none ↦ (neg enospc, s)
        | some idx ↦ (pos 0, new_file s now name idx)
      ]
    ]

-- The body of `fs_write_file` once the node is found; `copy_len` is what is left of `len`.
unfoldable pub write_node : Fs → ℕ → List ℕ → ℕ → Fs
write_node s idx bytes copy_len = put_node s idx (record (node s idx) {
  size = copy_len;
  content = set (memcpy (node s idx).content bytes copy_len) copy_len 0;
})

unfoldable pub fs_write_file : Fs → List ℕ → List ℕ → ℕ → ℤ × Fs
fs_write_file s name bytes len = elim (find_node s name) [
  | none ↦ (neg enoent, s)
  | some idx ↦
      if not ((node s idx).type == fs_type_file)
      then (neg eisdir, s)
      else let copy_len = if leb fs_max_data len then fs_max_data - 1 else len in
        (pos copy_len, write_node s idx bytes copy_len)
]

-- How many bytes `fs_read_file` copies; `max_len - 1` is a `size_t`, and wraps at 0.
unfoldable pub read_len : ℕ → ℕ → ℕ
read_len size max_len = if leb max_len size then (max_len + 2 ^ 32 - 1) % 2 ^ 32 else size

-- The result, and the caller's buffer.
unfoldable pub fs_read_file : Fs → List ℕ → List ℕ → ℕ → ℤ × List ℕ
fs_read_file s name buf max_len = elim (find_node s name) [
  | none ↦ (neg enoent, buf)
  | some idx ↦
      if not ((node s idx).type == fs_type_file)
      then (neg eisdir, buf)
      else let copy_len = read_len (node s idx).size max_len in
        (signed32 copy_len, set (memcpy buf (node s idx).content copy_len) copy_len 0)
]

-- One line of a listing, `DIR   name` or `FILE  name`, written at `offset`.
unfoldable pub list_line : List ℕ → ℕ → Node → List ℕ
list_line buf offset n =
    let type_str : List ℕ = if n.type == fs_type_dir then codes "DIR " else codes "FILE" in
    let b1 : List ℕ = at_offset offset (λ p. memcpy p type_str 4) buf in
    let b2 : List ℕ = set (set b1 (offset + 4) b' ') (offset + 5) b' ' in
    let b3 : List ℕ = at_offset (offset + 6) (λ p. memcpy p n.name (strlen n.name)) b2 in
    set b3 (offset + 6 + strlen n.name) 10

-- The loop of `fs_list` over what is left of the table: the count, the offset and the buffer.
unfoldable pub list_loop : ℕ → ℕ → List Node → ℕ → ℕ → List ℕ → ℕ × ℕ × List ℕ
unfolding is_child
list_loop dir max_len [] count offset buf = (count, offset, buf)
list_loop dir max_len (n ∷ ns) count offset buf =
    if is_child dir n && ltb (offset + 6 + strlen n.name + 1) max_len
    then list_loop dir max_len ns (count + 1) (offset + 7 + strlen n.name) (list_line buf offset n)
    else list_loop dir max_len ns count offset buf

unfoldable pub fs_list : Fs → List ℕ → ℕ → ℤ × List ℕ
unfolding list_loop
fs_list s buf max_len =
    let (count, offset, b) = list_loop s.current_dir max_len s.nodes 0 0 buf in
    (pos count, set b offset 0)

-- `fs_nodes[idx].in_use = 0`
unfoldable pub drop_node : Fs → ℕ → Fs
drop_node s idx = put_node s idx (record (node s idx) { in_use = false })

unfoldable pub fs_delete : Fs → List ℕ → ℤ × Fs
fs_delete s name = elim (find_node s name) [
  | none ↦ (neg enoent, s)
  | some idx ↦
      if idx == 0
      then (neg enoent, s)
      else if (node s idx).type == fs_type_dir && has_child s idx
      then (neg enotempty, s)
      else (pos 0, drop_node s idx)
]

-- `current_dir = fs_nodes[current_dir].parent`, if that is not negative.
unfoldable pub go_up : Fs → ℤ → Fs
go_up s (pos p) = record s { current_dir = p }
go_up s (negsuc _) = s

unfoldable pub fs_cd : Fs → List ℕ → ℤ × Fs
unfolding go_up
fs_cd s name =
    if eq_ℤ (strcmp name (codes "..")) (pos 0)
    then (pos 0, go_up s (node s s.current_dir).parent)
    else if eq_ℤ (strcmp name (codes "/")) (pos 0)
    then (pos 0, record s { current_dir = 0 })
    else elim (find_node s name) [
      | none ↦ (neg enoent, s)
      | some idx ↦
          if not ((node s idx).type == fs_type_dir)
          then (neg enotdir, s)
          else (pos 0, record s { current_dir = idx })
    ]

unfoldable pub fs_pwd : Fs → List ℕ
fs_pwd s = (node s s.current_dir).name

unfoldable pub fs_get_file_count : Fs → ℕ
fs_get_file_count s = count_if (λ n. n.in_use && n.type == fs_type_file) s.nodes

unfoldable pub fs_get_dir_count : Fs → ℕ
fs_get_dir_count s = count_if (λ n. n.in_use && n.type == fs_type_dir) s.nodes

-- The pointer to a node is its index.
unfoldable pub fs_get_node : Fs → List ℕ → Option ℕ
fs_get_node s name = find_node s name

unfoldable pub fs_unlink : Fs → List ℕ → ℤ × Fs
fs_unlink s name = elim (find_node s name) [
  | none ↦ (neg enoent, s)
  | some idx ↦
      if idx == 0
      then (neg enoent, s)
      else if not ((node s idx).type == fs_type_file)
      then (neg eisdir, s)
      else (pos 0, drop_node s idx)
]

unfoldable pub fs_rmdir : Fs → List ℕ → ℤ × Fs
fs_rmdir s name = elim (find_node s name) [
  | none ↦ (neg enoent, s)
  | some idx ↦
      if idx == 0
      then (neg enoent, s)
      else if not ((node s idx).type == fs_type_dir)
      then (neg enotdir, s)
      else if has_child s idx
      then (neg enotempty, s)
      else (pos 0, drop_node s idx)
]

-- The result, and the caller's buffer.
unfoldable pub fs_getcwd : Fs → Option (List ℕ) → ℕ → ℤ × Option (List ℕ)
fs_getcwd s none n = (neg efault, none)
fs_getcwd s (some buf) n =
    let len = strlen (node s s.current_dir).name in
    if n == 0
    then (neg efault, some buf)
    else if ltb n (len + 1)
    then (neg einval, some buf)
    else (pos len, some (memcpy buf (node s s.current_dir).name (len + 1)))

-- `fs_stat_t`
pub record FsStat : Type 0 where
  pub type : ℕ
  pub size : ℕ
  pub created_tick : ℕ
  pub parent : ℤ

-- The result, and what `out` points to.
unfoldable pub fs_stat : Fs → Option (List ℕ) → Option FsStat → ℤ × Option FsStat
fs_stat s none out = (neg efault, out)
fs_stat s (some name) none = (neg efault, none)
fs_stat s (some name) (some out) = elim (find_node s name) [
  | none ↦ (neg enoent, some out)
  | some idx ↦ (
    pos 0,
    some (record {
      type = (node s idx).type;
      size = (node s idx).size;
      created_tick = (node s idx).created_tick;
      parent = (node s idx).parent;
    }),
  )
]
