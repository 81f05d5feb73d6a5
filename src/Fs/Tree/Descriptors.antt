-- ===== src/Fs/Tree/Descriptors.antt =====
-- The descriptor-based calls of src/fs.c keep the tree.
use my_misu_os.Fs.Descriptors.{o_trunc}
use my_misu_os.Fs.Descriptors.{has_flag}
use my_misu_os.Fs.{FdEntry}
use my_misu_os.Base.{
  ℕ, refl, inl, inr, Option, none, some, List, arith, Bool-cases, Option-cases, ℤ, pos, negsuc,
  pos_part,
}
use my_misu_os.Fs.{Fs, put_fd, find_node}
use my_misu_os.Fs.Named.{fs_create_file}
use my_misu_os.Fs.Descriptors.{
  fs_open, open_created, open_node, truncate, fs_close, fs_read_fd, read_at, fs_write_fd, write_at,
  fs_lseek, seek_to, fd_node,
}
use my_misu_os.Fs.Sizes.{IsSized}
use my_misu_os.Fs.Tree.{IsTree}
use my_misu_os.Fs.Tree.Frame.{put_node-IsTree, fds-IsTree}
use my_misu_os.Fs.Tree.Entries.{fs_create_file-IsTree}

truncate-IsTree : {s : Fs} (idx flags : ℕ) → IsTree s → IsTree (truncate s idx flags)
unfolding truncate
truncate-IsTree {s} idx flags t = elim (Bool-cases (has_flag flags o_trunc)) [
  | inl e ↦
      rw e (
        put_node-IsTree idx _ t (record { name = refl; type = refl; parent = refl; in_use = refl }))
  | inr e ↦ rw e t
]

module _ (s : Fs) (idx flags : ℕ) (P : Fs → Type 0) (stay : P s) where
  open_node_cases :
      P (truncate s idx flags)
      → ((fd : ℕ) (f : FdEntry) → P (put_fd (truncate s idx flags) fd f))
      → P (open_node s idx flags).1
  unfolding open_node
  open_node_cases cut opened = grind arith

open_node-IsTree : {s : Fs} (idx flags : ℕ) → IsTree s → IsTree (open_node s idx flags).1
open_node-IsTree {s} idx flags t =
    let cut = truncate-IsTree idx flags t in
    open_node_cases s idx flags IsTree t cut (λ fd f. fds-IsTree cut refl refl)

open_created-IsTree :
    (name : List ℕ) (flags : ℕ) (r : ℤ × Fs) → IsTree r.1 → IsTree (open_created name flags r).1
unfolding open_created
open_created-IsTree name flags (negsuc e, s) t = t
open_created-IsTree name flags (pos n, s) t = elim (Option-cases (find_node s name)) [
  | inl e ↦ rw (e, open_created) t
  | inr (idx, e) ↦ rw (e, open_created) (open_node-IsTree idx flags t)
]

module _ (s : Fs) (now : ℕ) (name : List ℕ) (flags : ℕ) (P : Fs → Type 0) (stay : P s) where
  fs_open_cases :
      ((idx : ℕ) → P (open_node s idx flags).1)
      → P (open_created name flags (fs_create_file s now (some name))).1
      → P (fs_open s now (some name) flags).1
  unfolding fs_open
  fs_open_cases found created = grind arith

pub fs_open-IsTree :
    {s : Fs} (now : ℕ) (name : Option (List ℕ)) (flags : ℕ)
    → IsTree s
    → IsSized s
    → IsTree (fs_open s now name flags).1
fs_open-IsTree now none flags t v = unfold fs_open in t
fs_open-IsTree {s} now (some name) flags t v =
    fs_open_cases s now name flags IsTree t (λ idx. open_node-IsTree idx flags t)
      (open_created-IsTree name flags _ (fs_create_file-IsTree now (some name) t v))

-- The calls on a descriptor change no more of the nodes than a size and a content.
module _ (s : Fs) (fd : ℤ) (P : Fs → Type 0) (stay : P s) where
  fs_close_cases : ((f : FdEntry) → P (put_fd s (pos_part fd) f)) → P (fs_close s fd).1
  unfolding fs_close
  fs_close_cases moved = grind arith

  read_at_cases :
      (buf : List ℕ) (n : ℕ)
      → ((f : FdEntry) → P (put_fd s (pos_part fd) f))
      → P (read_at s (pos_part fd) buf n).2
  unfolding read_at
  read_at_cases buf n moved = grind arith

  fs_read_fd_cases :
      (buf : Option (List ℕ)) (n : ℕ)
      → ((f : FdEntry) → P (put_fd s (pos_part fd) f))
      → P (fs_read_fd s fd buf n).2
  unfolding fs_read_fd
  fs_read_fd_cases none n moved = grind arith
  fs_read_fd_cases (some buf) n moved = let r = read_at_cases buf n moved in ground arith

  seek_to_cases :
      (off : ℤ) → ((f : FdEntry) → P (put_fd s (pos_part fd) f)) → P (seek_to s (pos_part fd) off).1
  unfolding seek_to
  seek_to_cases (negsuc _) moved = stay
  seek_to_cases (pos off) moved = grind arith

  fs_lseek_cases :
      (offset whence : ℤ)
      → ((f : FdEntry) → P (put_fd s (pos_part fd) f))
      → P (fs_lseek s fd offset whence).1
  unfolding fs_lseek
  fs_lseek_cases offset whence moved = let r = λ (off : ℤ). seek_to_cases off moved in grind arith

  fs_write_fd_cases :
      (buf : Option (List ℕ)) (n : ℕ)
      → ((f : FdEntry) → P (put_fd s (pos_part fd) f))
      → ((b : List ℕ) (off : ℕ) → P (write_at s (pos_part fd) off b n).1)
      → P (fs_write_fd s fd buf n).1
  unfolding fs_write_fd
  fs_write_fd_cases none n moved written = grind arith
  fs_write_fd_cases (some buf) n moved written = grind arith

pub fs_close-IsTree : {s : Fs} (fd : ℤ) → IsTree s → IsTree (fs_close s fd).1
fs_close-IsTree {s} fd t = fs_close_cases s fd IsTree t (λ f. fds-IsTree t refl refl)

pub fs_read_fd-IsTree :
    {s : Fs} (fd : ℤ) (buf : Option (List ℕ)) (n : ℕ) → IsTree s → IsTree (fs_read_fd s fd buf n).2
fs_read_fd-IsTree {s} fd buf n t =
    fs_read_fd_cases s fd IsTree t buf n (λ f. fds-IsTree t refl refl)

pub fs_lseek-IsTree :
    {s : Fs} (fd offset whence : ℤ) → IsTree s → IsTree (fs_lseek s fd offset whence).1
fs_lseek-IsTree {s} fd offset whence t =
    fs_lseek_cases s fd IsTree t offset whence (λ f. fds-IsTree t refl refl)

write_at-IsTree :
    {s : Fs} (i off : ℕ) (buf : List ℕ) (n : ℕ) → IsTree s → IsTree (write_at s i off buf n).1
unfolding write_at
write_at-IsTree {s} i off buf n t =
    let kept =
      put_node-IsTree (fd_node s i) _ t
        (record { name = refl; type = refl; parent = refl; in_use = refl }) in
    fds-IsTree kept refl refl

pub fs_write_fd-IsTree :
    {s : Fs} (fd : ℤ) (buf : Option (List ℕ)) (n : ℕ) → IsTree s → IsTree (fs_write_fd s fd buf n).1
fs_write_fd-IsTree {s} fd buf n t =
    fs_write_fd_cases s fd IsTree t buf n (λ f. fds-IsTree t refl refl)
      (λ b off. write_at-IsTree (pos_part fd) off b n t)
