-- ===== src/Base/Lists.antt =====
-- C arrays as lists with native indices. A write out of range changes nothing, a read out of range
-- gives the default; the components' invariants rule both out.
use Prim.Native.Nat.{ℕ, zero, suc, ◌+◌, ◌-◌, ◌≤◌, ◌<◌, min}
use mathlib.Core.Path.{◌≡◌, refl, ap}
use mathlib.Core.Logic.{◌≢◌}
use mathlib.Core.List.{List, [], ◌∷◌, ◌++◌}
use native.Mathlib.Omega.{arith}
use my_misu_os.Base.Tests.{◌==◌, if◌then◌else◌}

module _ {ℓ} {A : Type ℓ} where
  abbrev pub length : List A → ℕ
  length [] = 0
  length (x ∷ xs) = suc (length xs)

  abbrev pub get_or : List A → ℕ → A → A
  get_or [] i d = d
  get_or (x ∷ xs) zero d = x
  get_or (x ∷ xs) (suc i) d = get_or xs i d

  abbrev pub set : List A → ℕ → A → List A
  set [] i v = []
  set (x ∷ xs) zero v = v ∷ xs
  set (x ∷ xs) (suc i) v = x ∷ set xs i v

  abbrev pub take : ℕ → List A → List A
  take zero xs = []
  take (suc n) [] = []
  take (suc n) (x ∷ xs) = x ∷ take n xs

  abbrev pub drop : ℕ → List A → List A
  drop zero xs = xs
  drop (suc n) [] = []
  drop (suc n) (x ∷ xs) = drop n xs

  abbrev pub replicate : ℕ → A → List A
  replicate zero a = []
  replicate (suc n) a = a ∷ replicate n a

  -- The suffix from index `k` on, rewritten by `f`: a write through the pointer `p + k`.
  unfoldable pub at_offset : ℕ → (List A → List A) → List A → List A
  at_offset zero f xs = f xs
  at_offset (suc k) f [] = []
  at_offset (suc k) f (x ∷ xs) = x ∷ at_offset k f xs

  pub length-set : (xs : List A) (i : ℕ) (v : A) → length (set xs i v) ≡ length xs
  length-set [] i v = refl
  length-set (x ∷ xs) zero v = refl
  length-set (x ∷ xs) (suc i) v = ap suc (length-set xs i v)

  pub get_or-set :
      (xs : List A) (i j : ℕ) (v d : A)
      → i < length xs
      → get_or (set xs i v) j d ≡ (if i == j then v else get_or xs j d)
  get_or-set [] i j v d h = absurd (omega arith)
  get_or-set (x ∷ xs) zero zero v d h = refl
  get_or-set (x ∷ xs) zero (suc j) v d h = ground arith
  get_or-set (x ∷ xs) (suc i) zero v d h = ground arith
  get_or-set (x ∷ xs) (suc i) (suc j) v d h = ground (arith, get_or-set xs i j v d)

  pub append_nil : (xs : List A) → xs ++ [] ≡ xs
  append_nil [] = refl
  append_nil (x ∷ xs) = ap (λ ys. x ∷ ys) (append_nil xs)

  pub snoc_append : (xs : List A) (x : A) (ys : List A) → (xs ++ x ∷ []) ++ ys ≡ xs ++ x ∷ ys
  snoc_append [] x ys = refl
  snoc_append (y ∷ xs) x ys = ap (λ zs. y ∷ zs) (snoc_append xs x ys)

  pub set-set : (xs : List A) (i : ℕ) (v w : A) → set (set xs i v) i w ≡ set xs i w
  set-set [] i v w = refl
  set-set (x ∷ xs) zero v w = refl
  set-set (x ∷ xs) (suc i) v w = ap (λ ys. x ∷ ys) (set-set xs i v w)

  pub get_or_default : (xs : List A) (i : ℕ) (d : A) → length xs ≤ i → get_or xs i d ≡ d
  get_or_default [] i d h = refl
  get_or_default (x ∷ xs) zero d h = absurd (omega arith)
  get_or_default (x ∷ xs) (suc i) d h = get_or_default xs i d (omega arith)

  pub length-append : (xs ys : List A) → length (xs ++ ys) ≡ length xs + length ys
  length-append [] ys = omega arith
  length-append (x ∷ xs) ys = omega (arith, length-append xs ys)

  pub length-take : (n : ℕ) (xs : List A) → length (take n xs) ≡ min n (length xs)
  length-take zero xs = omega arith
  length-take (suc n) [] = omega arith
  length-take (suc n) (x ∷ xs) = omega (arith, length-take n xs)

  pub length-drop : (n : ℕ) (xs : List A) → length (drop n xs) ≡ length xs - n
  length-drop zero xs = omega arith
  length-drop (suc n) [] = omega arith
  length-drop (suc n) (x ∷ xs) = omega (arith, length-drop n xs)

  pub length-replicate : (n : ℕ) (a : A) → length (replicate n a) ≡ n
  length-replicate zero a = refl
  length-replicate (suc n) a = ap suc (length-replicate n a)

  pub get_or-replicate : (n i : ℕ) (a : A) → get_or (replicate n a) i a ≡ a
  get_or-replicate zero i a = refl
  get_or-replicate (suc n) zero a = refl
  get_or-replicate (suc n) (suc i) a = get_or-replicate n i a

  pub take_of_le : (n : ℕ) (xs : List A) → length xs ≤ n → take n xs ≡ xs
  take_of_le zero [] h = refl
  take_of_le zero (x ∷ xs) h = absurd (omega arith)
  take_of_le (suc n) [] h = refl
  take_of_le (suc n) (x ∷ xs) h = ap (λ ys. x ∷ ys) (take_of_le n xs (omega arith))

  pub length-at_offset :
      (k : ℕ) (f : List A → List A) (xs : List A)
      → ((ys : List A) → length (f ys) ≡ length ys)
      → length (at_offset k f xs) ≡ length xs
  unfolding at_offset
  length-at_offset zero f xs h = h xs
  length-at_offset (suc k) f [] h = refl
  length-at_offset (suc k) f (x ∷ xs) h = ap suc (length-at_offset k f xs h)

  pub drop-at_offset :
      (k : ℕ) (f : List A → List A) (xs : List A)
      → k ≤ length xs
      → drop k (at_offset k f xs) ≡ f (drop k xs)
  unfolding at_offset
  drop-at_offset zero f xs h = refl
  drop-at_offset (suc k) f [] h = absurd (omega arith)
  drop-at_offset (suc k) f (x ∷ xs) h = drop-at_offset k f xs (omega arith)

  pub get_or-at_offset_lt :
      (k : ℕ) (f : List A → List A) (xs : List A) (i : ℕ) (d : A)
      → i < k
      → get_or (at_offset k f xs) i d ≡ get_or xs i d
  unfolding at_offset
  get_or-at_offset_lt zero f xs i d h = absurd (omega arith)
  get_or-at_offset_lt (suc k) f [] i d h = refl
  get_or-at_offset_lt (suc k) f (x ∷ xs) zero d h = refl
  get_or-at_offset_lt (suc k) f (x ∷ xs) (suc i) d h = get_or-at_offset_lt k f xs i d (omega arith)

  pub set_default : (xs : List A) (i : ℕ) (v : A) → length xs ≤ i → set xs i v ≡ xs
  set_default [] i v h = refl
  set_default (x ∷ xs) zero v h = absurd (omega arith)
  set_default (x ∷ xs) (suc i) v h = ap (λ ys. x ∷ ys) (set_default xs i v (omega arith))

  -- A predicate of every entry, the written one included.
  pub get_or-set_all {κ} :
      (P : A → Type κ) (xs : List A) (i : ℕ) (v d : A)
      → P v
      → ((j : ℕ) → P (get_or xs j d))
      → (j : ℕ) → P (get_or (set xs i v) j d)
  get_or-set_all P [] i v d new old j = old j
  get_or-set_all P (x ∷ xs) zero v d new old zero = new
  get_or-set_all P (x ∷ xs) zero v d new old (suc j) = old (suc j)
  get_or-set_all P (x ∷ xs) (suc i) v d new old zero = old zero
  get_or-set_all P (x ∷ xs) (suc i) v d new old (suc j) =
      get_or-set_all P xs i v d new (λ k. old (suc k)) j

  pub get_or-replicate_all {κ} :
      (P : A → Type κ) (n i : ℕ) (v d : A) → P v → P d → P (get_or (replicate n v) i d)
  get_or-replicate_all P zero i v d new old = old
  get_or-replicate_all P (suc n) zero v d new old = new
  get_or-replicate_all P (suc n) (suc i) v d new old = get_or-replicate_all P n i v d new old

  pub get_or-set_self :
      (xs : List A) (i : ℕ) (v d : A) → i < length xs → get_or (set xs i v) i d ≡ v
  get_or-set_self [] i v d h = absurd (omega arith)
  get_or-set_self (x ∷ xs) zero v d h = refl
  get_or-set_self (x ∷ xs) (suc i) v d h = get_or-set_self xs i v d (omega arith)

  pub get_or-set_ne :
      (xs : List A) {i j : ℕ} (v d : A) → i ≢ j → get_or (set xs i v) j d ≡ get_or xs j d
  get_or-set_ne [] v d h = refl
  get_or-set_ne (x ∷ xs) {i = zero} {j = zero} v d h = absurd (h refl)
  get_or-set_ne (x ∷ xs) {i = zero} {j = suc j} v d h = refl
  get_or-set_ne (x ∷ xs) {i = suc i} {j = zero} v d h = refl
  get_or-set_ne (x ∷ xs) {i = suc i} {j = suc j} v d h = get_or-set_ne xs v d (λ e. h (ap suc e))

  pub set_same : (xs : List A) (i : ℕ) (d : A) → set xs i (get_or xs i d) ≡ xs
  set_same [] i d = refl
  set_same (x ∷ xs) zero d = refl
  set_same (x ∷ xs) (suc i) d = ap (λ ys. x ∷ ys) (set_same xs i d)
