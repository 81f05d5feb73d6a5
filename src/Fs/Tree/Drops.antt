-- ===== src/Fs/Tree/Drops.antt =====
-- `fs_delete`, `fs_unlink`, `fs_rmdir` and `fs_cd` of src/fs.c keep the tree.

use my_misu_os.Base.{
  ℕ, ◌≡◌, refl, sym, ap, ◌∙◌, ◌≢◌, true, false, some, List, arith, ℤ, pos, negsuc,
}
use my_misu_os.Fs.{Fs, node, find_node, has_child, fs_type_dir}
use my_misu_os.Fs.Tables.{find_node-some, has_child-false}
use my_misu_os.Fs.Named.{fs_delete, drop_node, fs_cd, go_up, fs_unlink, fs_rmdir}
use my_misu_os.Fs.Tree.{IsTree, Rooted-ne_self, parent-in_use}
use my_misu_os.Fs.Tree.Moves.{drop-IsTree, cd-IsTree}

-- A found entry of the current directory is not the current directory.
found-ne_cwd :
    {s : Fs} (name : List ℕ) {idx : ℕ}
    → IsTree s
    → find_node s name ≡ some idx
    → idx ≢ s.current_dir
found-ne_cwd {s} name {idx} t found e =
    let (_, h) = find_node-some s name found in
    Rooted-ne_self t.root_top (t.rooted idx h.used) (h.inside ∙ ap pos (sym e))

-- A file has no children: the parent of every entry but the root is a directory.
file-childless :
    {s : Fs} (idx : ℕ)
    → IsTree s
    → (node s idx).type ≢ fs_type_dir
    → (i : ℕ) → (node s i).in_use ≡ true
    → (node s i).parent ≢ pos idx
file-childless idx t ne i u e = ne (parent-in_use i idx t u e).1

drop_node-IsTree :
    {s : Fs} (name : List ℕ) (idx : ℕ)
    → IsTree s
    → find_node s name ≡ some idx
    → idx ≢ 0
    → ((i : ℕ) → (node s i).in_use ≡ true → (node s i).parent ≢ pos idx)
    → IsTree (drop_node s idx)
unfolding drop_node
drop_node-IsTree {s} name idx t found nz c =
    drop-IsTree s idx _ t (find_node-some s name found).0 refl nz (found-ne_cwd name t found) c

-- The three ways in which a call may drop the entry that it found.
drop_empty-IsTree :
    {s : Fs} (name : List ℕ) (idx : ℕ)
    → IsTree s
    → find_node s name ≡ some idx
    → idx ≢ 0
    → has_child s idx ≡ false
    → IsTree (drop_node s idx)
drop_empty-IsTree {s} name idx t found nz e =
    drop_node-IsTree name idx t found nz (λ i. has_child-false s idx i e)

drop_file-IsTree :
    {s : Fs} (name : List ℕ) (idx : ℕ)
    → IsTree s
    → find_node s name ≡ some idx
    → idx ≢ 0
    → (node s idx).type ≢ fs_type_dir
    → IsTree (drop_node s idx)
drop_file-IsTree name idx t found nz e =
    drop_node-IsTree name idx t found nz (file-childless idx t e)

-- The states in which the calls that drop an entry or change the directory can end.
module _ (s : Fs) (name : List ℕ) (P : Fs → Type 0) (stay : P s) where
  fs_delete_cases :
      ((idx : ℕ)
        → find_node s name ≡ some idx
        → idx ≢ 0
        → has_child s idx ≡ false
        → P (drop_node s idx))
      → ((idx : ℕ)
          → find_node s name ≡ some idx
          → idx ≢ 0
          → (node s idx).type ≢ fs_type_dir
          → P (drop_node s idx))
      → P (fs_delete s name).1
  unfolding fs_delete
  fs_delete_cases empty file = grind arith

  fs_unlink_cases :
      ((idx : ℕ)
        → find_node s name ≡ some idx
        → idx ≢ 0
        → (node s idx).type ≢ fs_type_dir
        → P (drop_node s idx))
      → P (fs_unlink s name).1
  unfolding fs_unlink
  fs_unlink_cases file = grind arith

  fs_rmdir_cases :
      ((idx : ℕ)
        → find_node s name ≡ some idx
        → idx ≢ 0
        → has_child s idx ≡ false
        → P (drop_node s idx))
      → P (fs_rmdir s name).1
  unfolding fs_rmdir
  fs_rmdir_cases empty = grind arith

  fs_cd_cases :
      P (go_up s (node s s.current_dir).parent)
      → P (record s { current_dir = 0 })
      → ((idx : ℕ)
          → find_node s name ≡ some idx
          → (node s idx).type ≡ fs_type_dir
          → P (record s { current_dir = idx }))
      → P (fs_cd s name).1
  unfolding fs_cd
  fs_cd_cases up root down = grind arith

pub fs_delete-IsTree : {s : Fs} (name : List ℕ) → IsTree s → IsTree (fs_delete s name).1
fs_delete-IsTree {s} name t =
    fs_delete_cases s name IsTree t (λ idx f nz k. drop_empty-IsTree name idx t f nz k)
      (λ idx f nz k. drop_file-IsTree name idx t f nz k)

pub fs_unlink-IsTree : {s : Fs} (name : List ℕ) → IsTree s → IsTree (fs_unlink s name).1
fs_unlink-IsTree {s} name t =
    fs_unlink_cases s name IsTree t (λ idx f nz k. drop_file-IsTree name idx t f nz k)

pub fs_rmdir-IsTree : {s : Fs} (name : List ℕ) → IsTree s → IsTree (fs_rmdir s name).1
fs_rmdir-IsTree {s} name t =
    fs_rmdir_cases s name IsTree t (λ idx f nz k. drop_empty-IsTree name idx t f nz k)

go_up-IsTree : {s : Fs} (p : ℤ) → IsTree s → (node s s.current_dir).parent ≡ p → IsTree (go_up s p)
unfolding go_up
go_up-IsTree {s} (pos p) t e =
    let (u, d) = parent-in_use s.current_dir p t t.cwd_used e in cd-IsTree s p t u d
go_up-IsTree (negsuc _) t e = t

cd_found-IsTree :
    {s : Fs} (name : List ℕ) (idx : ℕ)
    → IsTree s
    → find_node s name ≡ some idx
    → (node s idx).type ≡ fs_type_dir
    → IsTree (record s { current_dir = idx })
cd_found-IsTree {s} name idx t found d = cd-IsTree s idx t (find_node-some s name found).1.used d

pub fs_cd-IsTree : {s : Fs} (name : List ℕ) → IsTree s → IsTree (fs_cd s name).1
fs_cd-IsTree {s} name t =
    fs_cd_cases s name IsTree t (go_up-IsTree (node s s.current_dir).parent t refl)
      (cd-IsTree s 0 t t.root_used t.root_dir) (λ idx f d. cd_found-IsTree name idx t f d)
