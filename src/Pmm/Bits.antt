-- ===== src/Pmm/Bits.antt =====
-- The bit operations of src/pmm.c on one byte, checked for every byte and bit.
use my_misu_os.Base.{◌≢◌}
use my_misu_os.Base.{◌≤◌}
use my_misu_os.Base.{none}
use my_misu_os.Base.{some}
use my_misu_os.Base.{arith}
use my_misu_os.Pmm.{clear_bit_from}
use my_misu_os.Base.{
  ℕ, zero, suc, ◌+◌, ◌<◌, ◌≡◌, refl, Bool, true, false, not, ◌&&◌, ltb, ◌==◌, if◌then◌else◌,
  all_below, all_below_sound,
}
use my_misu_os.Pmm.{set_in, clear_in, test_in}

-- The number of set bits of a byte, counted from bit `8 - left` on.
unfoldable pub ones_from : ℕ → ℕ → ℕ → ℕ
ones_from zero bit x = 0
ones_from (suc left) bit x =
    let rest = ones_from left (suc bit) x in if test_in x bit then suc rest else rest

unfoldable pub ones : ℕ → ℕ
unfolding ones_from
ones x = ones_from 8 0 x

ones_from-le : (left bit x : ℕ) → ones_from left bit x ≤ left
unfolding ones_from
ones_from-le zero bit x = omega arith
ones_from-le (suc left) bit x = ground (arith, ones_from-le left (suc bit) x)

pub ones-le : (x : ℕ) → ones x ≤ 8
unfolding ones
ones-le x = ones_from-le 8 0 x

bool_eq : Bool → Bool → Bool
bool_eq true b = b
bool_eq false b = not b

bool_eq-eq : (a b : Bool) → bool_eq a b ≡ true → a ≡ b
unfolding bool_eq
bool_eq-eq true true h = refl
bool_eq-eq true false h = cc
bool_eq-eq false true h = cc
bool_eq-eq false false h = refl

-- A table over every byte and two bits.
all_bits : (ℕ → ℕ → ℕ → Bool) → Bool
unfolding all_below
all_bits p = all_below 256 (λ x. all_below 8 (λ k. all_below 8 (λ j. p x k j)))

all_bits_sound :
    (p : ℕ → ℕ → ℕ → Bool) (x k j : ℕ)
    → all_bits p ≡ true
    → x < 256
    → k < 8
    → j < 8
    → p x k j ≡ true
unfolding all_bits
all_bits_sound p x k j h hx hk hj =
    all_below_sound 8 (λ j. p x k j) j
      (all_below_sound 8 (λ k. all_below 8 (λ j. p x k j)) k
        (all_below_sound 256 (λ x. all_below 8 (λ k. all_below 8 (λ j. p x k j))) x h hx) hk)
      hj

set_law : ℕ → ℕ → ℕ → Bool
set_law x k j =
    bool_eq (test_in (set_in x k) j) (if k == j then true else test_in x j) && ltb (set_in x k) 256

clear_law : ℕ → ℕ → ℕ → Bool
clear_law x k j =
    bool_eq (test_in (clear_in x k) j) (if k == j then false else test_in x j)
    && ltb (clear_in x k) 256

count_law : ℕ → ℕ → ℕ → Bool
count_law x k j =
    if test_in x k then ones (clear_in x k) + 1 == ones x else ones (set_in x k) == ones x + 1

set_table : all_bits set_law ≡ true
unfolding all_bits set_law bool_eq test_in set_in
set_table = refl

clear_table : all_bits clear_law ≡ true
unfolding all_bits clear_law bool_eq test_in clear_in
clear_table = refl

count_table : all_below 256 (λ x. all_below 8 (λ k. count_law x k 0)) ≡ true
unfolding all_below count_law ones test_in set_in clear_in
count_table = refl

-- What the inner loop of `pmm_alloc_page` finds in a byte.
first_law : ℕ → Bool
first_law x = elim (clear_bit_from 8 0 x) [
  | none ↦ x == 255
  | some k ↦ ltb k 8 && not (test_in x k) && all_below k (λ j. test_in x j) && not (x == 255)
]

first_table : all_below 256 first_law ≡ true
unfolding all_below first_law clear_bit_from test_in
first_table = refl

undo_law : ℕ → ℕ → ℕ → Bool
undo_law x k j = if test_in x k then true else clear_in (set_in x k) k == x

undo_table : all_bits undo_law ≡ true
unfolding all_bits undo_law test_in set_in clear_in
undo_table = refl

full_table : all_below 8 (λ j. test_in 255 j) ≡ true
unfolding all_below test_in
full_table = refl

pub test_in_full : (j : ℕ) → j < 8 → test_in 255 j ≡ true
test_in_full j h = all_below_sound 8 (test_in 255) j full_table h

module _ (x k : ℕ) (hx : x < 256) (hk : k < 8) where
  pub test_in-set_in :
      (j : ℕ) → j < 8 → test_in (set_in x k) j ≡ (if k == j then true else test_in x j)
  unfolding set_law
  test_in-set_in j hj =
      let h = all_bits_sound set_law x k j set_table hx hk hj in bool_eq-eq _ _ (ground arith)

  pub set_in-lt : set_in x k < 256
  unfolding set_law
  set_in-lt = let h = all_bits_sound set_law x k 0 set_table hx hk (omega arith) in ground arith

  pub test_in-clear_in :
      (j : ℕ) → j < 8 → test_in (clear_in x k) j ≡ (if k == j then false else test_in x j)
  unfolding clear_law
  test_in-clear_in j hj =
      let h = all_bits_sound clear_law x k j clear_table hx hk hj in bool_eq-eq _ _ (ground arith)

  pub clear_in-lt : clear_in x k < 256
  unfolding clear_law
  clear_in-lt =
      let h = all_bits_sound clear_law x k 0 clear_table hx hk (omega arith) in ground arith

  counts : count_law x k 0 ≡ true
  counts =
      all_below_sound 8 (λ k. count_law x k 0) k
        (all_below_sound 256 (λ x. all_below 8 (λ k. count_law x k 0)) x count_table hx) hk

  pub ones-set_in : test_in x k ≡ false → ones (set_in x k) ≡ ones x + 1
  unfolding count_law
  ones-set_in e = let h = counts in ground arith

  pub ones-clear_in : test_in x k ≡ true → ones (clear_in x k) + 1 ≡ ones x
  unfolding count_law
  ones-clear_in e = let h = counts in ground arith

  pub clear_in-set_in : test_in x k ≡ false → clear_in (set_in x k) k ≡ x
  unfolding undo_law
  clear_in-set_in e =
      let h = all_bits_sound undo_law x k 0 undo_table hx hk (omega arith) in ground arith

-- A byte is full, or the loop finds its first clear bit.
pub record IsClear (x k : ℕ) : Type 0 where
  pub bit_lt : k < 8
  pub clear : test_in x k ≡ false
  pub below : (j : ℕ) → j < k → test_in x j ≡ true
  pub not_full : x ≢ 255

pub clear_bit_from-none : (x : ℕ) → x < 256 → clear_bit_from 8 0 x ≡ none → x ≡ 255
unfolding first_law
clear_bit_from-none x hx e = let h = all_below_sound 256 first_law x first_table hx in ground arith

pub clear_bit_from-some : (x : ℕ) {k : ℕ} → x < 256 → clear_bit_from 8 0 x ≡ some k → IsClear x k
unfolding first_law
clear_bit_from-some x {k} hx e =
    let h = all_below_sound 256 first_law x first_table hx in
    let all : all_below k (λ j. test_in x j) ≡ true = ground arith in
    record {
      bit_lt = ground arith;
      clear = ground arith;
      below = λ j lt. all_below_sound k (λ j. test_in x j) j all lt;
      not_full = ground arith;
    }
