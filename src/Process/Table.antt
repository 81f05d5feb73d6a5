-- ===== src/Process/Table.antt =====
-- The process table of src/process.c: its identifiers stay distinct.
use my_misu_os.Base.{
  ℕ, zero, suc, ◌+◌, ◌<◌, ◌≡◌, refl, sym, ap, ◌∙◌, ◌≢◌, ◌⊎◌, inl, inr, true, some, List, [], ◌∷◌,
  map, arith, ◌==◌, Bool-cases, Option-cases, length, get_or, set, length-set, find_from,
  find_from-some, find_from-none, get_or-set_self, get_or-set_ne,
}
use my_misu_os.Process.{
  Process, Kernel, zero_process, max_processes, has_pid, is_free_slot, find_free_slot, wake,
}

-- The table has 16 slots, and the processes in use have distinct identifiers below `next`.
pub record IsTable (table : List Process) (next : ℕ) : Type 0 where
  pub slots : length table ≡ max_processes
  pub fresh :
      (i : ℕ)
      → (get_or table i zero_process).in_use ≡ true
      → (get_or table i zero_process).pid < next
  pub distinct :
      (i j : ℕ)
      → (get_or table i zero_process).in_use ≡ true
      → (get_or table j zero_process).in_use ≡ true
      → (get_or table i zero_process).pid ≡ (get_or table j zero_process).pid
      → i ≡ j

unfoldable pub IsValid : Kernel → Type 0
IsValid k = IsTable k.proc_table k.next_pid

-- A change of one slot that keeps its identifier and does not take the slot into use.
unfoldable pub IsLess : Process → Process → Type 0
IsLess p q = (p.pid ≡ q.pid) × (p.in_use ≡ true → q.in_use ≡ true)

pub lower :
    {table : List Process} {next : ℕ} (table' : List Process)
    → length table' ≡ length table
    → ((i : ℕ) → IsLess (get_or table' i zero_process) (get_or table i zero_process))
    → IsTable table next
    → IsTable table' next
unfolding IsLess
lower table' len less t = record {
  slots = len ∙ t.slots;
  fresh = λ i u. let (e, f) = less i in rw e (t.fresh i (f u));
  distinct = λ i j u v q.
      let (e, f) = less i in let (e', f') = less j in t.distinct i j (f u) (f' v) (sym e ∙ q ∙ e');
}

pub set-IsLess :
    (table : List Process) (slot : ℕ) (p : Process)
    → IsLess p (get_or table slot zero_process)
    → (i : ℕ) → IsLess (get_or (set table slot p) i zero_process) (get_or table i zero_process)
unfolding IsLess
set-IsLess [] slot p less i = (refl, λ u. u)
set-IsLess (q ∷ qs) zero p less zero = less
set-IsLess (q ∷ qs) zero p less (suc i) = (refl, λ u. u)
set-IsLess (q ∷ qs) (suc slot) p less zero = (refl, λ u. u)
set-IsLess (q ∷ qs) (suc slot) p less (suc i) = set-IsLess qs slot p less i

pub set-IsTable :
    {table : List Process} {next : ℕ} (slot : ℕ) (p : Process)
    → IsLess p (get_or table slot zero_process)
    → IsTable table next
    → IsTable (set table slot p) next
set-IsTable {table} slot p less t =
    lower (set table slot p) (length-set table slot p) (set-IsLess table slot p less) t

pub wake-IsLess : (now : ℕ) (p : Process) → IsLess (wake now p) p
unfolding wake IsLess
wake-IsLess now p = ground arith

pub map-IsLess :
    (now : ℕ) (table : List Process) (i : ℕ)
    → IsLess (get_or (map (wake now) table) i zero_process) (get_or table i zero_process)
unfolding IsLess
map-IsLess now [] i = (refl, λ u. u)
map-IsLess now (p ∷ ps) zero = wake-IsLess now p
map-IsLess now (p ∷ ps) (suc i) = map-IsLess now ps i

pub length-map : (now : ℕ) (table : List Process) → length (map (wake now) table) ≡ length table
length-map now [] = refl
length-map now (p ∷ ps) = ap suc (length-map now ps)

-- A free slot is given the next identifier. Its new process is the only one with it.
taken :
    {table : List Process} {next : ℕ} (slot : ℕ) (p : Process)
    → slot < length table
    → p.pid ≡ next
    → IsTable table next
    → (i : ℕ) → (get_or (set table slot p) i zero_process).in_use ≡ true
    → (i ≡ slot) × ((get_or (set table slot p) i zero_process).pid ≡ next)
      ⊎ (i ≢ slot)
        × ((get_or table i zero_process).in_use ≡ true)
        × (get_or (set table slot p) i zero_process ≡ get_or table i zero_process)
taken {table} slot p lt e t i u = elim (Bool-cases (i == slot)) [
  | inl h ↦
      let q : i ≡ slot = ground arith in
      inl (q, rw (q, get_or-set_self table slot p zero_process lt) e)
  | inr h ↦
      let ne : slot ≢ i = λ q. absurd (ground arith) in
      let same = get_or-set_ne table p zero_process ne in
      inr (λ q. ne (sym q), sym (ap (λ (x : Process). x.in_use) same) ∙ u, same)
]

pub take_slot :
    {table : List Process} {next : ℕ} (slot : ℕ) (p : Process)
    → slot < length table
    → p.pid ≡ next
    → IsTable table next
    → IsTable (set table slot p) (next + 1)
take_slot {table} {next} slot p lt e t = record {
  slots = length-set table slot p ∙ t.slots;
  fresh = λ i u. elim (taken slot p lt e t i u) [
    | inl (_, q) ↦ omega (arith, q)
    | inr (_, v, same) ↦ rw same (omega (arith, t.fresh i v))
  ];
  distinct = λ i j u v q. elim (taken slot p lt e t i u) [
    | inl (a, b) ↦ elim (taken slot p lt e t j v) [
      | inl (c, d) ↦ a ∙ sym c
      | inr (_, w, same) ↦ absurd (omega (arith, t.fresh j w, ap (λ (x : Process). x.pid) same))
    ]
    | inr (_, w, same) ↦ elim (taken slot p lt e t j v) [
      | inl (c, d) ↦ absurd (omega (arith, t.fresh i w, ap (λ (x : Process). x.pid) same))
      | inr (_, w', same') ↦
          t.distinct i j w w'
            (sym (ap (λ (x : Process). x.pid) same) ∙ q ∙ ap (λ (x : Process). x.pid) same')
    ]
  ];
}

pub free_inside :
    (k : Kernel) {slot : ℕ} → find_free_slot k ≡ some slot → slot < length k.proc_table
free_inside k found =
    let (n, e, first) = find_from-some is_free_slot 0 k.proc_table zero_process found in
    omega (arith, first.inside)

-- The identifier of a process in use leads to its slot.
pub find_slot_lem :
    {table : List Process} {next : ℕ} (slot : ℕ)
    → IsTable table next
    → slot < length table
    → (get_or table slot zero_process).in_use ≡ true
    → find_from (has_pid (get_or table slot zero_process).pid) 0 table ≡ some slot
unfolding has_pid
find_slot_lem {table} slot t lt u =
    elim (Option-cases (find_from (has_pid (get_or table slot zero_process).pid) 0 table)) [
      | inl h ↦ absurd (
          ground (
            arith,
            find_from-none (has_pid (get_or table slot zero_process).pid) 0 table zero_process slot
                h lt,
          ))
      | inr (r, h) ↦
          let (n, e, first) =
            find_from-some (has_pid (get_or table slot zero_process).pid) 0 table zero_process h in
          let hit = first.passes in
          let same = t.distinct n slot (ground arith) u (ground arith) in
          h ∙ ap some (omega (arith, e, same))
    ]
