-- ===== src/Fs/Tree.antt =====
-- The directory structure of src/fs.c: what every call keeps true of the table of nodes.
pub mod Moves
pub mod Frame
pub mod Entries
pub mod Drops
pub mod Descriptors
use my_misu_os.Base.{ℕ, ◌-◌, ◌≡◌, sym, ap, subst, ◌∙◌, ◌≢◌, true, arith, pos, negsuc, pos_part}
use my_misu_os.CStrings.Laws.{text}
use my_misu_os.Fs.{Node, Fs, node, fs_type_dir}

-- The chain of parents of an entry ends at the root.
pub data Rooted (s : Fs) : ℕ → Type 0 where
  at_root : {i : ℕ} → i ≡ 0 → Rooted s i
  in_dir : {i p : ℕ} → (node s i).parent ≡ pos p → Rooted s p → Rooted s i

-- The parent of an entry is a directory in use.
pub record InDir (s : Fs) (n : Node) : Type 0 where
  pub above : n.parent ≡ pos (pos_part n.parent)
  pub above_used : (node s (pos_part n.parent)).in_use ≡ true
  pub above_dir : (node s (pos_part n.parent)).type ≡ fs_type_dir

pub record IsTree (s : Fs) : Type 0 where
  pub root_used : (node s 0).in_use ≡ true
  pub root_dir : (node s 0).type ≡ fs_type_dir
  pub root_top : (node s 0).parent ≡ negsuc 0
  pub cwd_used : (node s s.current_dir).in_use ≡ true
  pub cwd_dir : (node s s.current_dir).type ≡ fs_type_dir
  pub placed : (i : ℕ) → (node s i).in_use ≡ true → i ≢ 0 → InDir s (node s i)
  pub rooted : (i : ℕ) → (node s i).in_use ≡ true → Rooted s i
  pub distinct :
      (i j : ℕ)
      → (node s i).in_use ≡ true
      → (node s j).in_use ≡ true
      → (node s i).parent ≡ (node s j).parent
      → text (node s i).name ≡ text (node s j).name
      → i ≡ j

-- No entry on a chain to the root is its own parent.
pub Rooted-ne_self :
    {s : Fs} {i : ℕ} → (node s 0).parent ≡ negsuc 0 → Rooted s i → (node s i).parent ≢ pos i
Rooted-ne_self {s} {i} top (at_root e) h = cc (ap (λ (k : ℕ). (node s k).parent) e)
Rooted-ne_self {s} {i} top (in_dir {p = p} e r) h =
    let same : p ≡ i = ground arith in
    Rooted-ne_self top r (ap (λ (k : ℕ). (node s k).parent) same ∙ h ∙ ap pos (sym same))

-- The parent of an entry in use, in one step.
pub parent-in_use :
    {s : Fs} (i p : ℕ)
    → IsTree s
    → (node s i).in_use ≡ true
    → (node s i).parent ≡ pos p
    → ((node s p).in_use ≡ true) × ((node s p).type ≡ fs_type_dir)
parent-in_use {s} i p t u e =
    let d : InDir s (node s i) = t.placed i u (λ z. cc (t.root_top)) in
    let q : pos_part (node s i).parent ≡ p = ap pos_part e in
    (
      subst (λ k. (node s k).in_use ≡ true) q d.above_used,
      subst (λ k. (node s k).type ≡ fs_type_dir) q d.above_dir,
    )

-- A chain survives a change that keeps the parents of a set of entries closed under parents.
pub Rooted-transport :
    {s : Fs} (s' : Fs) (Kept : ℕ → Type 0)
    → ((i : ℕ) → Kept i → (node s' i).parent ≡ (node s i).parent)
    → ((i p : ℕ) → Kept i → (node s i).parent ≡ pos p → Kept p)
    → {i : ℕ} → Kept i
    → Rooted s i
    → Rooted s' i
Rooted-transport s' Kept same up k (at_root e) = at_root e
Rooted-transport s' Kept same up {i} k (in_dir {p = p} e r) =
    in_dir (same i k ∙ e) (Rooted-transport s' Kept same up (up i p k e) r)

-- An entry with the same parent is placed too, where that parent is still a directory in use.
pub InDir-move :
    {s : Fs} {n : Node} (s' : Fs) (m : Node)
    → InDir s n
    → m.parent ≡ n.parent
    → (node s' (pos_part n.parent)).in_use ≡ true
    → (node s' (pos_part n.parent)).type ≡ fs_type_dir
    → InDir s' m
InDir-move s' m d e u k = record {
  above = e ∙ d.above ∙ ap (λ z. pos (pos_part z)) (sym e);
  above_used = subst (λ z. (node s' (pos_part z)).in_use ≡ true) (sym e) u;
  above_dir = subst (λ z. (node s' (pos_part z)).type ≡ fs_type_dir) (sym e) k;
}
