-- ===== src/Shell/Recent.antt =====
-- The history of src/shell.c against the list of all lines.
use my_misu_os.Base.{
  ℕ, zero, suc, ◌+◌, ◌-◌, ◌≤◌, ◌<◌, min, ◌≡◌, refl, sym, ap, ◌∙◌, inl, inr, List, [], ◌∷◌, arith,
  ltb, ltb→lt, Bool-cases, length, get_or, set, replicate, length-set, get_or-set_self,
  get_or-set_ne,
}
use native.Mathlib.Decide.{ℕ_discrete}
use my_misu_os.Shell.{max_history, History, move_lines, history_add}

length-move_lines : (n i : ℕ) (lines : List (List ℕ)) → length (move_lines n i lines) ≡ length lines
unfolding move_lines
length-move_lines zero i lines = refl
length-move_lines (suc n) i lines =
    length-move_lines n (i + 1) (set lines (i - 1) (get_or lines i []))
    ∙ length-set lines (i - 1) (get_or lines i [])

move_lines-below :
    (n i k : ℕ) (lines : List (List ℕ))
    → k + 1 < i
    → get_or (move_lines n i lines) k [] ≡ get_or lines k []
unfolding move_lines
move_lines-below zero i k lines lt = refl
move_lines-below (suc n) i k lines lt =
    move_lines-below n (i + 1) k (set lines (i - 1) (get_or lines i [])) (omega arith)
    ∙ get_or-set_ne lines (get_or lines i []) [] (λ e. absurd (omega arith))

move_lines-inside :
    (n i k : ℕ) (lines : List (List ℕ))
    → 1 ≤ i
    → i ≤ k + 1
    → k + 1 < i + n
    → k < length lines
    → get_or (move_lines n i lines) k [] ≡ get_or lines (k + 1) []
unfolding move_lines
move_lines-inside zero i k lines le lo hi fits = absurd (omega arith)
move_lines-inside (suc n) i k lines le lo hi fits =
    let moved = set lines (i - 1) (get_or lines i []) in
    elim (ℕ_discrete (k + 1) i) [
      | yes e ↦
          let at : i - 1 ≡ k = omega (arith, e) in
          move_lines-below n (i + 1) k moved (omega arith)
          ∙ rw at (get_or-set_self lines k (get_or lines i []) [] fits)
          ∙ ap (λ m. get_or lines m []) (sym e)
      | no ne ↦
          move_lines-inside n (i + 1) k moved (omega arith) (ground arith) (omega arith)
            (omega (arith, fits, length-set lines (i - 1) (get_or lines i [])))
          ∙ get_or-set_ne lines (get_or lines i []) [] (λ e. absurd (omega arith))
    ]

-- The history after lines, given latest first.
unfoldable pub added : List (List ℕ) → History
added [] = record { lines = replicate max_history []; count = 0 }
added (c ∷ cs) = history_add (added cs) c

record IsRecent (h : History) (cs : List (List ℕ)) : Type 0 where
  lines_len : length h.lines ≡ max_history
  count_eq : h.count ≡ min (length cs) max_history
  recent : (j : ℕ) → j < h.count → get_or h.lines (h.count - 1 - j) [] ≡ get_or cs j []

added-recent :
    (h : History) (c : List ℕ) (cs : List (List ℕ))
    → IsRecent h cs
    → h.count < max_history
    → (j : ℕ) → j < h.count + 1
    → get_or (set h.lines h.count c) (h.count + 1 - 1 - j) [] ≡ get_or (c ∷ cs) j []
added-recent h c cs v room zero lt =
    let at : h.count + 1 - 1 - 0 ≡ h.count = omega arith in
    rw at (get_or-set_self h.lines h.count c [] (omega (arith, room, v.lines_len)))
added-recent h c cs v room (suc j) lt =
    let at : h.count + 1 - 1 - suc j ≡ h.count - 1 - j = omega arith in
    rw at (get_or-set_ne h.lines c [] (λ e. absurd (omega arith)) ∙ v.recent j (omega arith))

moved-recent :
    (h : History) (c : List ℕ) (cs : List (List ℕ))
    → IsRecent h cs
    → h.count ≡ max_history
    → (j : ℕ) → j < h.count
    → get_or (set (move_lines 9 1 h.lines) 9 c) (h.count - 1 - j) [] ≡ get_or (c ∷ cs) j []
moved-recent h c cs v full zero lt =
    let at : h.count - 1 - 0 ≡ 9 = omega (arith, full) in
    rw at (
      get_or-set_self (move_lines 9 1 h.lines) 9 c []
        (omega (arith, length-move_lines 9 1 h.lines, v.lines_len)))
moved-recent h c cs v full (suc j) lt =
    let at : h.count - 1 - suc j + 1 ≡ h.count - 1 - j = omega (arith, lt) in
    get_or-set_ne (move_lines 9 1 h.lines) c [] (λ e. absurd (omega (arith, full)))
    ∙ move_lines-inside 9 1 (h.count - 1 - suc j) h.lines (omega arith) (omega arith)
        (omega (arith, full, lt)) (omega (arith, full, v.lines_len))
    ∙ ap (λ n. get_or h.lines n []) at
    ∙ v.recent j (omega arith)

add-IsRecent :
    (h : History) (c : List ℕ) (cs : List (List ℕ))
    → IsRecent h cs
    → IsRecent (history_add h c) (c ∷ cs)
unfolding history_add
add-IsRecent h c cs v = elim (Bool-cases (ltb h.count max_history)) [
  | inl room ↦ rw room (record {
    lines_len = length-set h.lines h.count c ∙ v.lines_len;
    count_eq = ground (arith, v.count_eq, room);
    recent = λ j lt. added-recent h c cs v (ltb→lt h.count max_history room) j lt;
  })
  | inr full ↦ rw full (record {
    lines_len =
        length-set (move_lines 9 1 h.lines) 9 c ∙ length-move_lines 9 1 h.lines ∙ v.lines_len;
    count_eq = ground (arith, v.count_eq, full);
    recent = λ j lt. moved-recent h c cs v (ground arith) j lt;
  })
]

added-IsRecent : (cs : List (List ℕ)) → IsRecent (added cs) cs
unfolding added
added-IsRecent [] = record {
  lines_len = refl;
  count_eq = omega arith;
  recent = λ j lt. absurd (omega arith);
}
added-IsRecent (c ∷ cs) = add-IsRecent (added cs) c cs (added-IsRecent cs)

-- However many lines were added, the history holds the last ten of them, or all if there are fewer, the
-- oldest first.
pub history_add-recent :
    (cs : List (List ℕ))
    → ((added cs).count ≡ min (length cs) max_history)
      × ((j : ℕ)
          → j < (added cs).count
          → get_or (added cs).lines ((added cs).count - 1 - j) [] ≡ get_or cs j [])
history_add-recent cs = let v = added-IsRecent cs in (v.count_eq, v.recent)
