-- ===== src/Fs/Sizes/Calls.antt =====
-- Every call of src/fs.c keeps the sizes.
use my_misu_os.Fs.{fs_max_files}
use my_misu_os.Base.{
  ℕ, ◌≤◌, ◌<◌, ◌∙◌, inl, inr, false, Option, none, some, List, arith, Option-cases, length, set,
  length-set, ℤ, pos, negsuc, pos_part, neg,
}
use my_misu_os.Fs.{Fs, node, fd_entry, find_node, put_fd}
use my_misu_os.Fs.Tables.{find_node-some}
use my_misu_os.Fs.Named.{
  fs_mkdir, fs_create_file, new_dir, new_file, fs_write_file, write_node, fs_delete, drop_node,
  fs_cd, go_up, fs_unlink, fs_rmdir,
}
use my_misu_os.Fs.Descriptors.{
  fd_node, new_fd, fs_open, open_created, open_node, truncate, fs_close, fs_read_fd, read_at,
  fs_write_fd, write_at, write_offset, fs_lseek, seek_to,
}
use my_misu_os.Fs.Sizes.{
  IsSized, put_node-IsSized, put_fd-IsSized, cd-IsSized, length-copy_name, length-set-memcpy,
  length-set-at_offset,
}

pub new_dir-IsSized :
    {s : Fs} (now : ℕ) (name : List ℕ) (idx : ℕ) → IsSized s → IsSized (new_dir s now name idx)
unfolding new_dir
new_dir-IsSized {s} now name idx v =
    let f = v.node_fits idx in
    put_node-IsSized idx _ v (record {
      name_len = length-copy_name (node s idx).name name ∙ f.name_len;
      content_len = f.content_len;
      size_le = omega arith;
    })

pub new_file-IsSized :
    {s : Fs} (now : ℕ) (name : List ℕ) (idx : ℕ) → IsSized s → IsSized (new_file s now name idx)
unfolding new_file
new_file-IsSized {s} now name idx v =
    let f = v.node_fits idx in
    put_node-IsSized idx _ v (record {
      name_len = length-copy_name (node s idx).name name ∙ f.name_len;
      content_len = length-set (node s idx).content 0 0 ∙ f.content_len;
      size_le = omega arith;
    })

pub fs_mkdir-IsSized :
    {s : Fs} (now : ℕ) (name : Option (List ℕ)) → IsSized s → IsSized (fs_mkdir s now name).1
unfolding fs_mkdir
fs_mkdir-IsSized now none v = v
fs_mkdir-IsSized now (some name) v = grind (arith, new_dir-IsSized)

pub fs_create_file-IsSized :
    {s : Fs} (now : ℕ) (name : Option (List ℕ)) → IsSized s → IsSized (fs_create_file s now name).1
unfolding fs_create_file
fs_create_file-IsSized now none v = v
fs_create_file-IsSized now (some name) v = grind (arith, new_file-IsSized)

write_node-IsSized :
    {s : Fs} (idx : ℕ) (bytes : List ℕ) (n : ℕ)
    → n ≤ 4095
    → IsSized s
    → IsSized (write_node s idx bytes n)
unfolding write_node
write_node-IsSized {s} idx bytes n h v =
    let f = v.node_fits idx in
    put_node-IsSized idx _ v (record {
      name_len = f.name_len;
      content_len = length-set-memcpy (node s idx).content bytes n n 0 ∙ f.content_len;
      size_le = h;
    })

pub fs_write_file-IsSized :
    {s : Fs} (name bytes : List ℕ) (len : ℕ)
    → IsSized s
    → IsSized (fs_write_file s name bytes len).1
unfolding fs_write_file
fs_write_file-IsSized name bytes len v = grind (arith, write_node-IsSized)

drop_node-IsSized : {s : Fs} (idx : ℕ) → IsSized s → IsSized (drop_node s idx)
unfolding drop_node
drop_node-IsSized {s} idx v =
    let f = v.node_fits idx in
    put_node-IsSized idx _ v
      (record { name_len = f.name_len; content_len = f.content_len; size_le = f.size_le })

pub fs_delete-IsSized : {s : Fs} (name : List ℕ) → IsSized s → IsSized (fs_delete s name).1
unfolding fs_delete
fs_delete-IsSized name v = grind (arith, drop_node-IsSized)

pub fs_unlink-IsSized : {s : Fs} (name : List ℕ) → IsSized s → IsSized (fs_unlink s name).1
unfolding fs_unlink
fs_unlink-IsSized name v = grind (arith, drop_node-IsSized)

pub fs_rmdir-IsSized : {s : Fs} (name : List ℕ) → IsSized s → IsSized (fs_rmdir s name).1
unfolding fs_rmdir
fs_rmdir-IsSized name v = grind (arith, drop_node-IsSized)

go_up-IsSized : {s : Fs} (p : ℤ) → IsSized s → IsSized (go_up s p)
unfolding go_up
go_up-IsSized (pos p) v = cd-IsSized p v
go_up-IsSized (negsuc _) v = v

pub fs_cd-IsSized : {s : Fs} (name : List ℕ) → IsSized s → IsSized (fs_cd s name).1
unfolding fs_cd
fs_cd-IsSized name v = grind (arith, go_up-IsSized, cd-IsSized)

truncate-IsSized : {s : Fs} (idx flags : ℕ) → IsSized s → IsSized (truncate s idx flags)
unfolding truncate
truncate-IsSized {s = s} idx flags v =
    let f = v.node_fits idx in
    let t =
      put_node-IsSized idx
        (record (node s idx) { size = 0; content = set (node s idx).content 0 0 }) v
        (record {
          name_len = f.name_len;
          content_len = length-set (node s idx).content 0 0 ∙ f.content_len;
          size_le = omega arith;
        }) in
    ground arith

new_fd-IsSized :
    {s : Fs} (fd idx flags : ℕ)
    → idx < fs_max_files
    → IsSized s
    → IsSized (put_fd s fd (new_fd s idx flags))
unfolding new_fd
new_fd-IsSized {s} fd idx flags lt v =
    let f = v.node_fits idx in put_fd-IsSized fd _ v (ground arith)

open_node-IsSized :
    {s : Fs} (idx flags : ℕ) → idx < length s.nodes → IsSized s → IsSized (open_node s idx flags).1
unfolding open_node
open_node-IsSized {s} idx flags lt v =
    grind (arith, truncate-IsSized {s = s} idx flags v, new_fd-IsSized, v.nodes_len)

open_created-IsSized :
    (name : List ℕ) (flags : ℕ) (r : ℤ × Fs) → IsSized r.1 → IsSized (open_created name flags r).1
unfolding open_created
open_created-IsSized name flags (negsuc e, s) v = v
open_created-IsSized name flags (pos n, s) v = elim (Option-cases (find_node s name)) [
  | inl missing ↦ ground arith
  | inr (idx, found) ↦
      let opened = open_node-IsSized idx flags (find_node-some s name found).0 v in ground arith
]

pub fs_open-IsSized :
    {s : Fs} (now : ℕ) (name : Option (List ℕ)) (flags : ℕ)
    → IsSized s
    → IsSized (fs_open s now name flags).1
unfolding fs_open
fs_open-IsSized now none flags v = v
fs_open-IsSized {s} now (some name) flags v =
    let created =
      open_created-IsSized name flags (fs_create_file s now (some name))
        (fs_create_file-IsSized now (some name) v) in
    elim (Option-cases (find_node s name)) [
      | inl missing ↦ ground arith
      | inr (idx, found) ↦
          let opened = open_node-IsSized idx flags (find_node-some s name found).0 v in ground arith
    ]

pub fs_close-IsSized : {s : Fs} (fd : ℤ) → IsSized s → IsSized (fs_close s fd).1
unfolding fs_close
fs_close-IsSized {s} fd v =
    let f = v.fd_fits (pos_part fd) in
    let c =
      put_fd-IsSized (pos_part fd)
        (record (fd_entry s (pos_part fd)) { in_use = false; node_idx = neg 1 }) v
        (record { offset_le = f.offset_le; has_node = λ h. cc; node_lt = omega arith }) in
    ground arith

move_fd-IsSized :
    {s : Fs} (i off : ℕ)
    → off ≤ 4095
    → IsSized s
    → IsSized (put_fd s i (record (fd_entry s i) { offset = off }))
move_fd-IsSized {s} i off h v =
    let f = v.fd_fits i in
    put_fd-IsSized i _ v (record { offset_le = h; has_node = f.has_node; node_lt = f.node_lt })

read_at-IsSized :
    {s : Fs} (i : ℕ) (buf : List ℕ) (n : ℕ) → IsSized s → IsSized (read_at s i buf n).2
unfolding read_at
read_at-IsSized {s} i buf n v =
    grind (arith, move_fd-IsSized, v.fd_fits i, v.node_fits (fd_node s i))

pub fs_read_fd-IsSized :
    {s : Fs} (fd : ℤ) (buf : Option (List ℕ)) (n : ℕ)
    → IsSized s
    → IsSized (fs_read_fd s fd buf n).2
unfolding fs_read_fd
fs_read_fd-IsSized fd none n v = ground arith
fs_read_fd-IsSized {s} fd (some buf) n v =
    let r = read_at-IsSized (pos_part fd) buf n v in ground arith

seek_to-IsSized : {s : Fs} (i : ℕ) (off : ℤ) → IsSized s → IsSized (seek_to s i off).1
unfolding seek_to
seek_to-IsSized i (negsuc _) v = v
seek_to-IsSized i (pos off) v = grind (arith, move_fd-IsSized)

pub fs_lseek-IsSized :
    {s : Fs} (fd offset whence : ℤ) → IsSized s → IsSized (fs_lseek s fd offset whence).1
unfolding fs_lseek
fs_lseek-IsSized fd offset whence v = grind (arith, seek_to-IsSized)

pub write_offset-le : {s : Fs} (i : ℕ) → IsSized s → write_offset s i ≤ 4095
unfolding write_offset
write_offset-le {s} i v = ground (arith, v.fd_fits i, v.node_fits (fd_node s i))

write_at-IsSized :
    {s : Fs} (i off : ℕ) (buf : List ℕ) (n : ℕ)
    → off ≤ 4095
    → IsSized s
    → IsSized (write_at s i off buf n).1
unfolding write_at
write_at-IsSized {s} i off buf n h v =
    let f = v.fd_fits i in
    let g = v.node_fits (fd_node s i) in
    put_fd-IsSized i _
      (put_node-IsSized (fd_node s i) _ v (record {
        name_len = g.name_len;
        content_len =
            length-set-at_offset (node s (fd_node s i)).content buf off _ _ 0 ∙ g.content_len;
        size_le = ground arith;
      }))
      (record { offset_le = ground arith; has_node = f.has_node; node_lt = f.node_lt })

pub fs_write_fd-IsSized :
    {s : Fs} (fd : ℤ) (buf : Option (List ℕ)) (n : ℕ)
    → IsSized s
    → IsSized (fs_write_fd s fd buf n).1
unfolding fs_write_fd
fs_write_fd-IsSized fd none n v = ground arith
fs_write_fd-IsSized {s} fd (some buf) n v =
    let i = pos_part fd in
    let le = write_offset-le i v in
    let w = write_at-IsSized i (write_offset s i) buf n le v in
    let m = move_fd-IsSized i (write_offset s i) le v in ground arith
