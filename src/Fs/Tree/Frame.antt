-- ===== src/Fs/Tree/Frame.antt =====
-- A change of sizes, contents and descriptors only: it keeps the tree of src/fs.c.

use my_misu_os.Base.{
  ℕ, ◌≡◌, refl, sym, ap, subst, ◌∙◌, arith, length, get_or, pos_part, set_default,
}
use native.Mathlib.Decide.{dec_lt}
use my_misu_os.CStrings.Laws.{text}
use my_misu_os.Fs.{Fs, Node, node, put_node, zero_node}
use my_misu_os.Fs.Tables.{node-put_node}
use my_misu_os.Fs.Tree.{Rooted-transport, InDir-move, IsTree}

-- What a call that moves no entry leaves alone.
pub record SameShape (m n : Node) : Type 0 where
  pub name : m.name ≡ n.name
  pub type : m.type ≡ n.type
  pub parent : m.parent ≡ n.parent
  pub in_use : m.in_use ≡ n.in_use

SameShape-refl : (n : Node) → SameShape n n
SameShape-refl n = record { name = refl; type = refl; parent = refl; in_use = refl }

-- Sizes, contents and the descriptors may change.
frame-IsTree :
    (s s' : Fs)
    → IsTree s
    → s'.current_dir ≡ s.current_dir
    → ((i : ℕ) → SameShape (node s' i) (node s i))
    → IsTree s'
frame-IsTree s s' t c same = record {
  root_used = (same 0).in_use ∙ t.root_used;
  root_dir = (same 0).type ∙ t.root_dir;
  root_top = (same 0).parent ∙ t.root_top;
  cwd_used = rw c ((same s.current_dir).in_use ∙ t.cwd_used);
  cwd_dir = rw c ((same s.current_dir).type ∙ t.cwd_dir);
  placed = λ i u ne.
      let d = t.placed i (sym (same i).in_use ∙ u) ne in
      let p = pos_part (node s i).parent in
      InDir-move s' (node s' i) d (same i).parent ((same p).in_use ∙ d.above_used)
        ((same p).type ∙ d.above_dir);
  rooted = λ i u.
      Rooted-transport s' (λ _. Unit) (λ j _. (same j).parent) (λ _ _ _ _. tt) tt
        (t.rooted i (sym (same i).in_use ∙ u));
  distinct = λ i j u v e f.
      t.distinct i j (sym (same i).in_use ∙ u) (sym (same j).in_use ∙ v)
        (sym (same i).parent ∙ e ∙ (same j).parent)
        (ap text (sym (same i).name) ∙ f ∙ ap text (same j).name);
}

put_node-SameShape :
    (s : Fs) (k : ℕ) (n : Node)
    → SameShape n (node s k)
    → (i : ℕ) → SameShape (node (put_node s k n) i) (node s i)
put_node-SameShape s k n same i = elim (dec_lt k (length s.nodes)) [
  | yes p ↦ ground (arith, node-put_node s k i n p, SameShape-refl (node s i))
  | no p ↦ rw (set_default s.nodes k n (omega arith)) (SameShape-refl (node s i))
]

pub put_node-IsTree :
    {s : Fs} (k : ℕ) (n : Node) → IsTree s → SameShape n (node s k) → IsTree (put_node s k n)
put_node-IsTree {s} k n t same =
    frame-IsTree s (put_node s k n) t refl (put_node-SameShape s k n same)

-- The descriptors play no part in the tree.
pub fds-IsTree :
    {s s' : Fs} → IsTree s → s'.nodes ≡ s.nodes → s'.current_dir ≡ s.current_dir → IsTree s'
fds-IsTree {s} {s'} t e c = frame-IsTree s s' t c (λ i.
    subst (λ ns. SameShape (get_or ns i zero_node) (node s i)) (sym e) (SameShape-refl (node s i)))
