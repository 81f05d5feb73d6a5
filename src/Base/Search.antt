-- ===== src/Base/Search.antt =====
-- The counted loops of the sources that look for the first entry of a table that passes a test.
use Prim.Native.Nat.{ℕ, zero, suc, ◌+◌, ◌<◌}
use mathlib.Core.Path.{◌≡◌}
use mathlib.Core.Logic.{inl, inr}
use mathlib.Core.Bool.{Bool, true, false}
use mathlib.Core.Option.{Option, none, some}
use mathlib.Core.List.{List, [], ◌∷◌}
use native.Mathlib.Omega.{arith}
use my_misu_os.Base.Tests.{if◌then◌else◌, Bool-cases}
use my_misu_os.Base.Lists.{length, get_or}

-- `for (i = ...; i < n; i++) if (p(table[i])) return i; return -1;`, with `none` for -1. The list
-- is what is left of the table, `i` the index of its first entry.
module _ {ℓ} {A : Type ℓ} where
  unfoldable pub find_from : (A → Bool) → ℕ → List A → Option ℕ
  find_from p i [] = none
  find_from p i (x ∷ xs) = if p x then some i else find_from p (suc i) xs

  -- `for (i = 0; i < n; i++) if (p(table[i])) c++;`
  unfoldable pub count_if : (A → Bool) → List A → ℕ
  count_if p [] = 0
  count_if p (x ∷ xs) = if p x then suc (count_if p xs) else count_if p xs

  -- What a hit at `i + k` says of the table: the entry passes, and none before it does.
  pub record IsFirst (p : A → Bool) (xs : List A) (d : A) (k : ℕ) : Type ℓ where
    pub inside : k < length xs
    pub passes : p (get_or xs k d) ≡ true
    pub before : (j : ℕ) → j < k → p (get_or xs j d) ≡ false

  first_cons :
      (p : A → Bool) (x : A) (xs : List A) (d : A) (k : ℕ)
      → p x ≡ false
      → ((j : ℕ) → j < k → p (get_or xs j d) ≡ false)
      → (j : ℕ) → j < suc k
      → p (get_or (x ∷ xs) j d) ≡ false
  first_cons p x xs d k miss h zero lt = miss
  first_cons p x xs d k miss h (suc j) lt = h j (omega arith)

  pub find_from-some :
      (p : A → Bool) (i : ℕ) (xs : List A) (d : A) {r : ℕ}
      → find_from p i xs ≡ some r
      → (k : ℕ) × (r ≡ i + k) × IsFirst p xs d k
  unfolding find_from
  find_from-some p i [] d h = absurd (cc)
  find_from-some p i (x ∷ xs) d {r} h = elim (Bool-cases (p x)) [
    | inl hit ↦ (
      0,
      ground arith,
      record { inside = omega arith; passes = hit; before = λ j lt. absurd (omega arith) },
    )
    | inr miss ↦
        let (k, e, f) = find_from-some p (suc i) xs d {r = r} (ground arith) in
        (
          suc k,
          omega arith,
          record {
            inside = omega arith;
            passes = f.passes;
            before = first_cons p x xs d k miss f.before;
          },
        )
  ]

  pub find_from-none :
      (p : A → Bool) (i : ℕ) (xs : List A) (d : A) (j : ℕ)
      → find_from p i xs ≡ none
      → j < length xs
      → p (get_or xs j d) ≡ false
  unfolding find_from
  find_from-none p i [] d j h lt = absurd (omega arith)
  find_from-none p i (x ∷ xs) d zero h lt = ground arith
  find_from-none p i (x ∷ xs) d (suc j) h lt = ground (arith, find_from-none p (suc i) xs d j)
