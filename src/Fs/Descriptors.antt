-- ===== src/Fs/Descriptors.antt =====
-- The descriptor-based calls of src/fs.c.
use my_misu_os.Fs.{FdEntry}
use my_misu_os.Base.{
  ℕ, ◌+◌, ◌-◌, ◌%◌, ◌^◌, bit_and, Bool, true, false, not, ◌||◌, Option, none, some, List, ltb, leb,
  ◌==◌, if◌then◌else◌, get_or, set, drop, at_offset, ℤ, pos, negsuc, pos_part, neg, ◌+ℤ◌, eq_ℤ,
  signed32, pattern32,
}
use my_misu_os.Errno.{enoent, eio, ebadf, eacces, efault, eisdir, einval, emfile, enospc}
use my_misu_os.CStrings.{memcpy}
use my_misu_os.Fs.{
  fs_max_data, fs_max_fds, fs_type_file, Fs, node, fd_entry, put_node, put_fd, find_node,
  find_free_fd,
}
use my_misu_os.Fs.Named.{fs_create_file}

-- `flags & mask`, as a test.
unfoldable pub has_flag : ℕ → ℕ → Bool
has_flag flags mask = not (bit_and flags mask == 0)

abbrev pub o_rdonly : ℕ
o_rdonly = 0x0000

abbrev pub o_wronly : ℕ
o_wronly = 0x0001

abbrev pub o_rdwr : ℕ
o_rdwr = 0x0002

abbrev pub o_creat : ℕ
o_creat = 0x0040

abbrev pub o_trunc : ℕ
o_trunc = 0x0200

abbrev pub o_append : ℕ
o_append = 0x0400

unfoldable pub truncate : Fs → ℕ → ℕ → Fs
truncate s idx flags =
    if has_flag flags o_trunc
    then put_node s idx (record (node s idx) { size = 0; content = set (node s idx).content 0 0 })
    else s

-- The descriptor that `fs_open` fills in.
unfoldable pub new_fd : Fs → ℕ → ℕ → FdEntry
new_fd s idx flags = record {
  node_idx = pos idx;
  offset = if has_flag flags o_append then (node s idx).size else 0;
  flags = flags;
  in_use = true;
}

-- `fs_open` from the test of the node's type on.
unfoldable pub open_node : Fs → ℕ → ℕ → ℤ × Fs
open_node s idx flags =
    if not ((node s idx).type == fs_type_file)
    then (neg eisdir, s)
    else let s' = truncate s idx flags in
      elim (find_free_fd s') [
        | none ↦ (neg emfile, s')
        | some fd ↦ (pos fd, put_fd s' fd (new_fd s' idx flags))
      ]

-- `fs_open` once the file was missing and `fs_create_file` has returned.
unfoldable pub open_created : List ℕ → ℕ → ℤ × Fs → ℤ × Fs
open_created name flags (negsuc e, s) = (negsuc e, s)
open_created name flags (pos _, s) = elim (find_node s name) [
  | none ↦ (neg eio, s)
  | some idx ↦ open_node s idx flags
]

unfoldable pub fs_open : Fs → ℕ → Option (List ℕ) → ℕ → ℤ × Fs
fs_open s now none flags = (neg einval, s)
fs_open s now (some name) flags =
    if get_or name 0 0 == 0 then (neg einval, s) else elim (find_node s name) [
      | some idx ↦ open_node s idx flags
      | none ↦
          if has_flag flags o_creat
          then open_created name flags (fs_create_file s now (some name))
          else (neg enoent, s)
    ]

-- `fd < 0 || fd >= FS_MAX_FDS || !fs_fd_table[fd].in_use`
unfoldable pub bad_fd : Fs → ℤ → Bool
bad_fd s (negsuc _) = true
bad_fd s (pos fd) = leb fs_max_fds fd || not (fd_entry s fd).in_use

unfoldable pub fs_close : Fs → ℤ → ℤ × Fs
fs_close s fd =
    let i = pos_part fd in
    if bad_fd s fd
    then (neg ebadf, s)
    else (pos 0, put_fd s i (record (fd_entry s i) { in_use = false; node_idx = neg 1 }))

-- The node that a descriptor is open on.
abbrev pub fd_node : Fs → ℕ → ℕ
fd_node s i = pos_part (fd_entry s i).node_idx

-- `fs_read_fd` once the descriptor is known to be readable: the copy and the new offset.
unfoldable pub read_at : Fs → ℕ → List ℕ → ℕ → ℤ × List ℕ × Fs
read_at s i buf n =
    let f = fd_entry s i in
    let nd = node s (fd_node s i) in
    let avail = nd.size - f.offset in
    let to_copy = if ltb n avail then n else avail in
    if leb nd.size f.offset then (pos 0, buf, s) else (
      signed32 to_copy,
      memcpy buf (drop f.offset nd.content) to_copy,
      put_fd s i (record f { offset = (f.offset + to_copy) % 2 ^ 32 }),
    )

-- The result, the caller's buffer, and the state.
unfoldable pub fs_read_fd : Fs → ℤ → Option (List ℕ) → ℕ → ℤ × Option (List ℕ) × Fs
fs_read_fd s fd none n = if bad_fd s fd then (neg ebadf, none, s) else (neg efault, none, s)
fs_read_fd s fd (some buf) n =
    let i = pos_part fd in
    if bad_fd s fd
    then (neg ebadf, some buf, s)
    else if bit_and (fd_entry s i).flags 3 == o_wronly
    then (neg eacces, some buf, s)
    else let (r, b, s') = read_at s i buf n in (r, some b, s')

-- `fs_write_fd` once the offset `off` is known to leave room.
unfoldable pub write_at : Fs → ℕ → ℕ → List ℕ → ℕ → ℤ × Fs
write_at s i off buf n =
    let f = fd_entry s i in
    let k = fd_node s i in
    let nd = node s k in
    let space = fs_max_data - 1 - off in
    let to_copy = if ltb n space then n else space in
    let off' = (off + to_copy) % 2 ^ 32 in
    let size' = if ltb nd.size off' then off' else nd.size in
    let copied = at_offset off (λ p. memcpy p buf to_copy) nd.content in
    (
      signed32 to_copy,
      put_fd (put_node s k (record nd { size = size'; content = set copied size' 0 })) i
          (record f { offset = off' }),
    )

-- Where `fs_write_fd` writes: `O_APPEND` moves the offset to the end first.
unfoldable pub write_offset : Fs → ℕ → ℕ
write_offset s i =
    if has_flag (fd_entry s i).flags o_append
    then (node s (fd_node s i)).size
    else (fd_entry s i).offset

unfoldable pub fs_write_fd : Fs → ℤ → Option (List ℕ) → ℕ → ℤ × Fs
fs_write_fd s fd none n = if bad_fd s fd then (neg ebadf, s) else (neg efault, s)
fs_write_fd s fd (some buf) n =
    let i = pos_part fd in
    let off = write_offset s i in
    if bad_fd s fd
    then (neg ebadf, s)
    else if bit_and (fd_entry s i).flags 3 == o_rdonly
    then (neg eacces, s)
    else if leb (fs_max_data - 1) off
    then (neg enospc, put_fd s i (record (fd_entry s i) { offset = off }))
    else write_at s i off buf n

-- The new offset that `whence` asks for, none for an unknown `whence`; the sums are of `int32_t`.
unfoldable pub seek_target : ℕ → ℕ → ℤ → ℤ → Option ℤ
seek_target cur end offset whence =
    if eq_ℤ whence (pos 0)
    then some offset
    else if eq_ℤ whence (pos 1)
    then some (signed32 (pattern32 (signed32 cur +ℤ offset)))
    else if eq_ℤ whence (pos 2)
    then some (signed32 (pattern32 (signed32 end +ℤ offset)))
    else none

-- The two range tests of `fs_lseek`.
unfoldable pub seek_to : Fs → ℕ → ℤ → ℤ × Fs
seek_to s i (negsuc _) = (neg einval, s)
seek_to s i (pos off) =
    if ltb (fs_max_data - 1) off
    then (neg einval, s)
    else (pos off, put_fd s i (record (fd_entry s i) { offset = off }))

unfoldable pub fs_lseek : Fs → ℤ → ℤ → ℤ → ℤ × Fs
fs_lseek s fd offset whence =
    let i = pos_part fd in
    if bad_fd s fd
    then (neg ebadf, s)
    else elim (seek_target (fd_entry s i).offset (node s (fd_node s i)).size offset whence) [
      | none ↦ (neg einval, s)
      | some new_off ↦ seek_to s i new_off
    ]
