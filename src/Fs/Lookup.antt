-- ===== src/Fs/Lookup.antt =====
-- What a name of src/fs.c refers to after an entry was made or removed.
use my_misu_os.Base.{some-eq}
use my_misu_os.Base.{get_or-set_ne}
use my_misu_os.Fs.{zero_node}
use native.Mathlib.Decide.{ℕ_discrete}
use my_misu_os.Base.{
  ℕ, ◌<◌, ◌≡◌, refl, sym, ap, subst, ◌∙◌, ◌≢◌, inl, inr, false, none, some, List, arith,
  Option-cases, get_or, pos, neg, get_or-set_self,
}
use my_misu_os.CStrings.{strlen}
use my_misu_os.Errno.{enoent, eexist}
use my_misu_os.Fs.{Fs, Node, node, find_node, find_free_node, fs_type_dir, fs_type_file}
use my_misu_os.Fs.Tables.{HasName, find_node-some, find_node-none, find_free_node-some}
use my_misu_os.Fs.Named.{dir_node, fs_mkdir, new_dir, fs_unlink, drop_node, fs_stat, FsStat}
use my_misu_os.Fs.Descriptors.{fs_open, has_flag, o_creat}
use my_misu_os.Fs.Tree.{IsTree}
use my_misu_os.Fs.Tree.Entries.{fs_mkdir-IsTree, text-copy_name}
use my_misu_os.Fs.Reachable.{IsValid}

-- In a tree a name finds the one entry that has it.
pub find_node_of_HasName :
    {s : Fs} (name : List ℕ) (i : ℕ)
    → IsTree s
    → HasName s.current_dir name (node s i)
    → find_node s name ≡ some i
find_node_of_HasName {s} name i t h = elim (Option-cases (find_node s name)) [
  | inl missing ↦ absurd (find_node-none s name i missing h)
  | inr (j, found) ↦
      let (_, g) = find_node-some s name found in
      found
      ∙ ap some
          (t.distinct j i g.used h.used (g.inside ∙ sym h.inside) (g.same_text ∙ sym h.same_text))
]

-- What a successful `fs_mkdir` has done.
record Made (s : Fs) (now : ℕ) (name : List ℕ) : Type 0 where
  slot : ℕ
  nonempty : get_or name 0 0 ≢ 0
  short : strlen name < 32
  free : find_free_node s ≡ some slot
  result : (fs_mkdir s now (some name)).1 ≡ new_dir s now name slot

Made-of_ok :
    (s : Fs) (now : ℕ) (name : List ℕ) → (fs_mkdir s now (some name)).0 ≡ pos 0 → Made s now name
unfolding fs_mkdir
Made-of_ok s now name h = elim (Option-cases (find_free_node s)) [
  | inl full ↦ absurd (ground arith)
  | inr (k, e) ↦ record {
    slot = k;
    nonempty = ground arith;
    short = ground arith;
    free = e;
    result = ground arith;
  }
]

module _ (s : Fs) (now : ℕ) (name : List ℕ) (v : IsValid s) (m : Made s now name) where
  abbrev after : Fs
  after = new_dir s now name m.slot

  after-node : node after m.slot ≡ dir_node s now name m.slot
  unfolding new_dir
  after-node = get_or-set_self s.nodes m.slot _ zero_node (find_free_node-some s m.free).1

  after-HasName : HasName s.current_dir name (node after m.slot)
  after-HasName = rw after-node (record {
    used = refl;
    same_text =
        text-copy_name (node s m.slot).name name (v.sized.node_fits m.slot).name_len m.short;
    inside = refl;
  })

  after-find : find_node after name ≡ some m.slot
  unfolding new_dir
  after-find =
      find_node_of_HasName {s = after} name m.slot
        (subst IsTree m.result (fs_mkdir-IsTree now (some name) v.tree v.sized)) after-HasName

  after-stat :
      (out : FsStat)
      → fs_stat after (some name) (some out) ≡ (
        pos 0,
        some (record {
          type = fs_type_dir;
          size = 0;
          created_tick = now;
          parent = pos s.current_dir;
        }),
      )
  unfolding fs_stat
  after-stat out = rw (after-find, fs_stat) (rw after-node)

  after-mkdir : (later : ℕ) → fs_mkdir after later (some name) ≡ (neg eexist, after)
  unfolding fs_mkdir
  after-mkdir later = ground (arith, after-find, m.nonempty, m.short)

-- After `fs_mkdir` has returned 0, `fs_stat` of the name succeeds and describes an empty directory made
-- now in the current directory, and a second `fs_mkdir` of the name fails with EEXIST.
pub mkdir-stat :
    {s : Fs} (now later : ℕ) (name : List ℕ) (out : FsStat)
    → IsValid s
    → (fs_mkdir s now (some name)).0 ≡ pos 0
    → let s' = (fs_mkdir s now (some name)).1 in
      (fs_stat s' (some name) (some out) ≡ (
        pos 0,
        some (record {
          type = fs_type_dir;
          size = 0;
          created_tick = now;
          parent = pos s.current_dir;
        }),
      ))
      × (fs_mkdir s' later (some name) ≡ (neg eexist, s'))
mkdir-stat {s} now later name out v h =
    let m = Made-of_ok s now name h in
    rw m.result (after-stat s now name v m out, after-mkdir s now name v m later)

-- What a successful `fs_unlink` has done.
record Removed (s : Fs) (name : List ℕ) : Type 0 where
  slot : ℕ
  found : find_node s name ≡ some slot
  file : (node s slot).type ≡ fs_type_file
  result : (fs_unlink s name).1 ≡ drop_node s slot

Removed-of_ok : (s : Fs) (name : List ℕ) → (fs_unlink s name).0 ≡ pos 0 → Removed s name
unfolding fs_unlink
Removed-of_ok s name h = elim (Option-cases (find_node s name)) [
  | inl missing ↦ absurd (ground arith)
  | inr (k, e) ↦ record { slot = k; found = e; file = ground arith; result = ground arith }
]

dropped_ne :
    {s : Fs} (name : List ℕ) (k j : ℕ)
    → IsTree s
    → find_node s name ≡ some k
    → ¬ HasName s.current_dir name (node (drop_node s k) j)
unfolding drop_node
dropped_ne {s} name k j t found g =
    let lt = (find_node-some s name found).0 in
    elim (ℕ_discrete k j) [
      | yes p ↦ cc (
        g.used,
        ap (λ (i : ℕ). (node (drop_node s k) i).in_use) p,
        ap (λ (n : Node). n.in_use)
            (get_or-set_self s.nodes k (record (node s k) { in_use = false }) zero_node lt),
      )
      | no p ↦
          let same : node (drop_node s k) j ≡ node s j = get_or-set_ne s.nodes _ zero_node p in
          p (
            some-eq (
              sym found
              ∙ find_node_of_HasName name j t (subst (HasName s.current_dir name) same g)))
    ]

-- A dropped entry's name finds nothing more in its directory.
dropped-find :
    {s : Fs} (name : List ℕ) (k : ℕ)
    → IsTree s
    → find_node s name ≡ some k
    → find_node (drop_node s k) name ≡ none
unfolding drop_node
dropped-find {s} name k t found = elim (Option-cases (find_node (drop_node s k) name)) [
  | inl e ↦ e
  | inr (j, e) ↦ absurd (dropped_ne name k j t found (find_node-some (drop_node s k) name e).1)
]

missing_errors :
    (s : Fs) (now : ℕ) (name : List ℕ) (flags : ℕ)
    → find_node s name ≡ none
    → get_or name 0 0 ≢ 0
    → has_flag flags o_creat ≡ false
    → (fs_open s now (some name) flags ≡ (neg enoent, s)) × (fs_unlink s name ≡ (neg enoent, s))
unfolding fs_open fs_unlink
missing_errors s now name flags e ne plain = ground arith

-- After `fs_unlink` has returned 0, opening the name without O_CREAT fails with ENOENT, and so does a
-- second `fs_unlink`.
pub unlink-open :
    {s : Fs} (now : ℕ) (name : List ℕ) (flags : ℕ)
    → IsTree s
    → (fs_unlink s name).0 ≡ pos 0
    → get_or name 0 0 ≢ 0
    → has_flag flags o_creat ≡ false
    → let s' = (fs_unlink s name).1 in
      (fs_open s' now (some name) flags ≡ (neg enoent, s')) × (fs_unlink s' name ≡ (neg enoent, s'))
unlink-open {s} now name flags t h ne plain =
    let r = Removed-of_ok s name h in
    let gone = dropped-find name r.slot t r.found in
    rw r.result (missing_errors (drop_node s r.slot) now name flags gone ne plain)
