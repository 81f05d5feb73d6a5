-- ===== src/Fs/Tree/Entries.antt =====
-- `fs_mkdir`, `fs_create_file` and `fs_write_file` of src/fs.c keep the tree.

use my_misu_os.Base.{ℕ, ◌<◌, ◌≡◌, refl, ◌∙◌, Option, none, some, List, arith, length}
use my_misu_os.CStrings.{strlen}
use my_misu_os.CStrings.Laws.{text}
use my_misu_os.CStrings.Copy.{text-set-strncpy}
use my_misu_os.Fs.{Fs, node, find_node, find_free_node}
use my_misu_os.Fs.Tables.{find_node-none, find_free_node-some, HasName}
use my_misu_os.Fs.Named.{
  fs_mkdir, fs_create_file, new_dir, new_file, fs_write_file, write_node, copy_name,
}
use my_misu_os.Fs.Sizes.{IsSized}
use my_misu_os.Fs.Tree.{IsTree}
use my_misu_os.Fs.Tree.Frame.{put_node-IsTree}
use my_misu_os.Fs.Tree.Moves.{add-IsTree}

pub text-copy_name :
    (dest name : List ℕ)
    → length dest ≡ 32
    → strlen name < 32
    → text (copy_name dest name) ≡ text name
unfolding copy_name
text-copy_name dest name l h = text-set-strncpy dest name 31 (omega arith) (omega arith)

-- What `fs_mkdir` and `fs_create_file` have established before they fill in a slot.
module _ {s : Fs} (now : ℕ) (name : List ℕ) (idx : ℕ) (t : IsTree s) (v : IsSized s)
    (short : strlen name < 32) (missing : find_node s name ≡ none)
    (slot : find_free_node s ≡ some idx) where
  no_namesake : (i : ℕ) → ¬ HasName s.current_dir (copy_name (node s idx).name name) (node s i)
  no_namesake i h = find_node-none s name i missing (record {
    used = h.used;
    same_text =
        h.same_text ∙ text-copy_name (node s idx).name name (v.node_fits idx).name_len short;
    inside = h.inside;
  })

  new_dir-IsTree : IsTree (new_dir s now name idx)
  unfolding new_dir
  new_dir-IsTree =
      let (_, lt, free) = find_free_node-some s slot in
      add-IsTree s idx _ t lt free refl refl no_namesake

  new_file-IsTree : IsTree (new_file s now name idx)
  unfolding new_file
  new_file-IsTree =
      let (_, lt, free) = find_free_node-some s slot in
      add-IsTree s idx _ t lt free refl refl no_namesake

pub fs_mkdir-IsTree :
    {s : Fs} (now : ℕ) (name : Option (List ℕ))
    → IsTree s
    → IsSized s
    → IsTree (fs_mkdir s now name).1
unfolding fs_mkdir
fs_mkdir-IsTree now none t v = t
fs_mkdir-IsTree {s} now (some name) t v = grind (arith, new_dir-IsTree)

pub fs_create_file-IsTree :
    {s : Fs} (now : ℕ) (name : Option (List ℕ))
    → IsTree s
    → IsSized s
    → IsTree (fs_create_file s now name).1
unfolding fs_create_file
fs_create_file-IsTree now none t v = t
fs_create_file-IsTree {s} now (some name) t v = grind (arith, new_file-IsTree)

write_node-IsTree :
    {s : Fs} (idx : ℕ) (bytes : List ℕ) (n : ℕ) → IsTree s → IsTree (write_node s idx bytes n)
unfolding write_node
write_node-IsTree idx bytes n t =
    put_node-IsTree idx _ t (record { name = refl; type = refl; parent = refl; in_use = refl })

pub fs_write_file-IsTree :
    {s : Fs} (name bytes : List ℕ) (len : ℕ) → IsTree s → IsTree (fs_write_file s name bytes len).1
unfolding fs_write_file
fs_write_file-IsTree name bytes len t = grind (arith, write_node-IsTree)
