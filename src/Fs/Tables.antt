-- ===== src/Fs/Tables.antt =====
-- What the table searches of src/fs.c find, and what a write to a table entry changes.
use my_misu_os.Base.{
  ℕ, suc, ◌<◌, ◌≡◌, refl, ap, ◌≢◌, inl, inr, true, false, none, some, List, [], ◌∷◌, arith, ◌==◌,
  if◌then◌else◌, Option-cases, length, get_or, drop, get_or-set, get_or_default, pos, eq_ℤ_iff,
  find_from, IsFirst, find_from-some, find_from-none,
}
use native.Mathlib.Decide.{dec_lt}
use my_misu_os.CStrings.Laws.{text, strcmp_iff}
use my_misu_os.Fs.{
  Node, FdEntry, Fs, zero_node, zero_fd, node, fd_entry, put_node, put_fd, is_free, is_free_fd,
  is_named, is_child, find_free_node, find_node, find_free_fd, has_child,
}

pub zero_node-in_use : zero_node.in_use ≡ false
unfolding zero_node
zero_node-in_use = refl

pub zero_fd-in_use : zero_fd.in_use ≡ false
unfolding zero_fd
zero_fd-in_use = refl

pub node-put_node :
    (s : Fs) (i j : ℕ) (n : Node)
    → i < length s.nodes
    → node (put_node s i n) j ≡ (if i == j then n else node s j)
node-put_node s i j n h = get_or-set s.nodes i j n zero_node h

pub fd_entry-put_fd :
    (s : Fs) (i j : ℕ) (f : FdEntry)
    → i < length s.fd_table
    → fd_entry (put_fd s i f) j ≡ (if i == j then f else fd_entry s j)
fd_entry-put_fd s i j f h = get_or-set s.fd_table i j f zero_fd h

-- An index in use lies inside the table.
pub in_use-lt : (s : Fs) (i : ℕ) → (node s i).in_use ≡ true → i < length s.nodes
in_use-lt s i h = elim (dec_lt i (length s.nodes)) [
  | yes p ↦ p
  | no p ↦ cc (
    zero_node-in_use,
    ap (λ (n : Node). n.in_use) (get_or_default s.nodes i zero_node (omega arith)),
  )
]

-- An entry of the directory `dir` with the text of `name`.
pub record HasName (dir : ℕ) (name : List ℕ) (n : Node) : Type 0 where
  pub used : n.in_use ≡ true
  pub same_text : text n.name ≡ text name
  pub inside : n.parent ≡ pos dir

pub is_named-HasName :
    (dir : ℕ) (name : List ℕ) (n : Node) → is_named dir name n ≡ true → HasName dir name n
unfolding is_named
is_named-HasName dir name n h = grind (arith, eq_ℤ_iff, strcmp_iff)

pub HasName-is_named :
    (dir : ℕ) (name : List ℕ) (n : Node) → HasName dir name n → is_named dir name n ≡ true
unfolding is_named
HasName-is_named dir name n h = grind (arith, eq_ℤ_iff, strcmp_iff)

pub find_node-some :
    (s : Fs) (name : List ℕ) {idx : ℕ}
    → find_node s name ≡ some idx
    → (idx < length s.nodes) × HasName s.current_dir name (node s idx)
unfolding find_node
find_node-some s name {idx} h =
    let (k, e, f) = find_from-some (is_named s.current_dir name) 0 s.nodes zero_node {r = idx} h in
    let same : idx ≡ k = omega arith in
    rw same (f.inside, is_named-HasName s.current_dir name (node s k) f.passes)

-- No entry of the current directory has the text of a name that is not found.
pub find_node-none :
    (s : Fs) (name : List ℕ) (i : ℕ)
    → find_node s name ≡ none
    → ¬ HasName s.current_dir name (node s i)
unfolding find_node
find_node-none s name i h v = cc (
  find_from-none (is_named s.current_dir name) 0 s.nodes zero_node i h (in_use-lt s i v.used),
  HasName-is_named s.current_dir name (node s i) v,
)

free_after_root :
    (ns : List Node) (k : ℕ)
    → IsFirst is_free (drop 1 ns) zero_node k
    → (0 < suc k) × (suc k < length ns) × ((get_or ns (suc k) zero_node).in_use ≡ false)
unfolding is_free
free_after_root [] k f = absurd (omega (arith, f.inside))
free_after_root (n ∷ ns) k f = (omega arith, omega (arith, f.inside), ground (arith, f.passes))

pub find_free_node-some :
    (s : Fs) {idx : ℕ}
    → find_free_node s ≡ some idx
    → (0 < idx) × (idx < length s.nodes) × ((node s idx).in_use ≡ false)
unfolding find_free_node is_free
find_free_node-some s {idx} h =
    let (k, e, f) = find_from-some is_free 1 (drop 1 s.nodes) zero_node {r = idx} h in
    let same : idx ≡ suc k = omega arith in rw same (free_after_root s.nodes k f)

pub find_free_fd-some :
    (s : Fs) {fd : ℕ}
    → find_free_fd s ≡ some fd
    → (fd < length s.fd_table) × ((fd_entry s fd).in_use ≡ false)
unfolding find_free_fd is_free_fd
find_free_fd-some s {fd} h =
    let (k, e, f) = find_from-some is_free_fd 0 s.fd_table zero_fd {r = fd} h in
    let same : fd ≡ k = omega arith in rw same (f.inside, ground (arith, f.passes))

pub is_child_of :
    (dir : ℕ) (n : Node) → n.in_use ≡ true → n.parent ≡ pos dir → is_child dir n ≡ true
unfolding is_child
is_child_of dir n u p = grind (arith, eq_ℤ_iff)

-- A directory that `has_child` finds empty is the parent of no entry in use.
pub has_child-false :
    (s : Fs) (dir i : ℕ)
    → has_child s dir ≡ false
    → (node s i).in_use ≡ true
    → (node s i).parent ≢ pos dir
unfolding has_child
has_child-false s dir i h u p = elim (Option-cases (find_from (is_child dir) 0 s.nodes)) [
  | inl e ↦ cc (
    find_from-none (is_child dir) 0 s.nodes zero_node i e (in_use-lt s i u),
    is_child_of dir (node s i) u p,
  )
  | inr (k, e) ↦ ground arith
]
