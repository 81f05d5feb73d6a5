-- ===== src/Fs/Tree/Moves.antt =====
-- Three ways in which the calls of src/fs.c change the tree: a new entry, a dropped entry, and a
-- change of directory.
use my_misu_os.Base.{
  ℕ, ◌<◌, ◌≡◌, refl, sym, ap, subst, ◌∙◌, ◌≢◌, ◌⊎◌, inl, inr, true, false, arith, length, pos,
  pos_part,
}
use my_misu_os.CStrings.Laws.{text}
use my_misu_os.Fs.{Node, Fs, node, put_node, fs_type_dir}
use my_misu_os.Fs.Tables.{node-put_node, HasName}
use my_misu_os.Fs.Tree.{Rooted, in_dir, InDir, IsTree, Rooted-transport, parent-in_use, InDir-move}

-- A new entry of the current directory in a free slot.
module _ (s : Fs) (idx : ℕ) (n : Node) (t : IsTree s) (inside : idx < length s.nodes)
    (free : (node s idx).in_use ≡ false) (used : n.in_use ≡ true)
    (here : n.parent ≡ pos s.current_dir)
    (fresh : (i : ℕ) → ¬ HasName s.current_dir n.name (node s i)) where
  abbrev added : Fs
  added = put_node s idx n

  added-at : node added idx ≡ n
  added-at = ground (arith, node-put_node s idx idx n inside)

  -- Every entry that was in use stays as it was.
  added-keeps : (i : ℕ) → (node s i).in_use ≡ true → node added i ≡ node s i
  added-keeps i u = ground (arith, node-put_node s idx i n inside)

  added-cases : (i : ℕ) → (node added i).in_use ≡ true → (i ≡ idx) ⊎ ((node s i).in_use ≡ true)
  added-cases i u = ground (arith, node-put_node s idx i n inside)

  added-Rooted : {i : ℕ} → (node s i).in_use ≡ true → Rooted s i → Rooted added i
  added-Rooted u r =
      Rooted-transport added (λ i. (node s i).in_use ≡ true)
        (λ i k. ap (λ (m : Node). m.parent) (added-keeps i k))
        (λ i p k e. (parent-in_use i p t k e).0) u r

  added-InDir : (m : Node) → InDir s m → InDir added m
  added-InDir m d =
      let same = added-keeps (pos_part m.parent) d.above_used in
      record {
        above = d.above;
        above_used = ap (λ (k : Node). k.in_use) same ∙ d.above_used;
        above_dir = ap (λ (k : Node). k.type) same ∙ d.above_dir;
      }

  new-InDir : InDir s n
  new-InDir =
      let q : pos_part n.parent ≡ s.current_dir = ap pos_part here in
      record {
        above = here ∙ ap pos (sym q);
        above_used = subst (λ k. (node s k).in_use ≡ true) (sym q) t.cwd_used;
        above_dir = subst (λ k. (node s k).type ≡ fs_type_dir) (sym q) t.cwd_dir;
      }

  added-placed : (i : ℕ) → (node added i).in_use ≡ true → i ≢ 0 → InDir added (node added i)
  added-placed i u ne = elim (added-cases i u) [
    | inl e ↦ rw (e, added-at) (added-InDir n new-InDir)
    | inr k ↦ rw (added-keeps i k) (added-InDir (node s i) (t.placed i k ne))
  ]

  added_all-Rooted : (i : ℕ) → (node added i).in_use ≡ true → Rooted added i
  added_all-Rooted i u = elim (added-cases i u) [
    | inl e ↦
        in_dir
          (ap (λ (k : ℕ). (node added k).parent) e ∙ ap (λ (m : Node). m.parent) added-at ∙ here)
          (added-Rooted t.cwd_used (t.rooted s.current_dir t.cwd_used))
    | inr k ↦ added-Rooted k (t.rooted i k)
  ]

  -- An old entry cannot agree with the new one on its directory and text.
  added-ne :
      (j k : ℕ)
      → k ≡ idx
      → (node s j).in_use ≡ true
      → (node added j).parent ≡ (node added k).parent
      → text (node added j).name ≡ text (node added k).name
      → ⊥
  added-ne j k q l e f =
      let old = sym (added-keeps j l) in
      let new = ap (λ (z : ℕ). node added z) q ∙ added-at in
      fresh j (record {
        used = l;
        same_text = ap (λ (m : Node). text m.name) old ∙ f ∙ ap (λ (m : Node). text m.name) new;
        inside = ap (λ (m : Node). m.parent) old ∙ e ∙ ap (λ (m : Node). m.parent) new ∙ here;
      })

  added-distinct :
      (i j : ℕ)
      → (node added i).in_use ≡ true
      → (node added j).in_use ≡ true
      → (node added i).parent ≡ (node added j).parent
      → text (node added i).name ≡ text (node added j).name
      → i ≡ j
  added-distinct i j u v e f = elim (added-cases i u) [
    | inl p ↦ elim (added-cases j v) [
      | inl q ↦ p ∙ sym q
      | inr l ↦ absurd (added-ne j i p l (sym e) (sym f))
    ]
    | inr k ↦ elim (added-cases j v) [
      | inl q ↦ absurd (added-ne i j q k e f)
      | inr l ↦
          t.distinct i j k l (rw (added-keeps i k, added-keeps j l) at e)
            (rw (added-keeps i k, added-keeps j l) at f)
    ]
  ]

  pub add-IsTree : IsTree added
  add-IsTree = record {
    root_used = ap (λ (m : Node). m.in_use) (added-keeps 0 t.root_used) ∙ t.root_used;
    root_dir = ap (λ (m : Node). m.type) (added-keeps 0 t.root_used) ∙ t.root_dir;
    root_top = ap (λ (m : Node). m.parent) (added-keeps 0 t.root_used) ∙ t.root_top;
    cwd_used = ap (λ (m : Node). m.in_use) (added-keeps s.current_dir t.cwd_used) ∙ t.cwd_used;
    cwd_dir = ap (λ (m : Node). m.type) (added-keeps s.current_dir t.cwd_used) ∙ t.cwd_dir;
    placed = added-placed;
    rooted = added_all-Rooted;
    distinct = added-distinct;
  }

-- An entry other than the root, of which no entry in use is a child, goes out of use.
module _ (s : Fs) (idx : ℕ) (n : Node) (t : IsTree s) (inside : idx < length s.nodes)
    (unused : n.in_use ≡ false) (not_root : idx ≢ 0) (not_cwd : idx ≢ s.current_dir)
    (childless : (i : ℕ) → (node s i).in_use ≡ true → (node s i).parent ≢ pos idx) where
  abbrev dropped : Fs
  dropped = put_node s idx n

  dropped-keeps : (i : ℕ) → i ≢ idx → node dropped i ≡ node s i
  dropped-keeps i ne = ground (arith, node-put_node s idx i n inside)

  dropped-cases : (i : ℕ) → (node dropped i).in_use ≡ true → (i ≢ idx) × ((node s i).in_use ≡ true)
  dropped-cases i u = (
    λ e. ground (arith, node-put_node s idx i n inside),
    ground (arith, node-put_node s idx i n inside),
  )

  dropped-Rooted : {i : ℕ} → i ≢ idx → (node s i).in_use ≡ true → Rooted s i → Rooted dropped i
  dropped-Rooted ne u r =
      Rooted-transport dropped (λ i. (i ≢ idx) × ((node s i).in_use ≡ true))
        (λ i k. ap (λ (m : Node). m.parent) (dropped-keeps i k.0))
        (λ i p k e. ((λ q. childless i k.1 (e ∙ ap pos q)), (parent-in_use i p t k.1 e).0)) (ne, u)
        r

  dropped-placed : (i : ℕ) → (node dropped i).in_use ≡ true → i ≢ 0 → InDir dropped (node dropped i)
  dropped-placed i u nz =
      let (ne, k) = dropped-cases i u in
      let d : InDir s (node s i) = t.placed i k nz in
      let same =
        dropped-keeps (pos_part (node s i).parent) (λ q. childless i k (d.above ∙ ap pos q)) in
      rw (dropped-keeps i ne) (record {
        above = d.above;
        above_used = ap (λ (m : Node). m.in_use) same ∙ d.above_used;
        above_dir = ap (λ (m : Node). m.type) same ∙ d.above_dir;
      })

  pub drop-IsTree : IsTree dropped
  drop-IsTree =
      let root = dropped-keeps 0 (λ e. not_root (sym e)) in
      let cwd = dropped-keeps s.current_dir (λ e. not_cwd (sym e)) in
      record {
        root_used = ap (λ (m : Node). m.in_use) root ∙ t.root_used;
        root_dir = ap (λ (m : Node). m.type) root ∙ t.root_dir;
        root_top = ap (λ (m : Node). m.parent) root ∙ t.root_top;
        cwd_used = ap (λ (m : Node). m.in_use) cwd ∙ t.cwd_used;
        cwd_dir = ap (λ (m : Node). m.type) cwd ∙ t.cwd_dir;
        placed = dropped-placed;
        rooted = λ i u. let (ne, k) = dropped-cases i u in dropped-Rooted ne k (t.rooted i k);
        distinct = λ i j u v e f.
            let (ne, k) = dropped-cases i u in
            let (nf, l) = dropped-cases j v in
            t.distinct i j k l (rw (dropped-keeps i ne, dropped-keeps j nf) at e)
              (rw (dropped-keeps i ne, dropped-keeps j nf) at f);
      }

-- The current directory moves to a directory in use.
pub cd-IsTree :
    (s : Fs) (dir : ℕ)
    → IsTree s
    → (node s dir).in_use ≡ true
    → (node s dir).type ≡ fs_type_dir
    → IsTree (record s { current_dir = dir })
cd-IsTree s dir t u d = record {
  root_used = t.root_used;
  root_dir = t.root_dir;
  root_top = t.root_top;
  cwd_used = u;
  cwd_dir = d;
  placed =
      λ i k ne. let d = t.placed i k ne in InDir-move _ (node s i) d refl d.above_used d.above_dir;
  rooted = λ i k. Rooted-transport _ (λ _. Unit) (λ _ _. refl) (λ _ _ _ _. tt) tt (t.rooted i k);
  distinct = t.distinct;
}
