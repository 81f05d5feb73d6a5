-- ===== src/Shell/Entry.antt =====
-- A name and its password get past `login_screen` of src/shell.c.
use my_misu_os.Base.{
  ℕ, zero, suc, ◌+◌, ◌≤◌, ◌<◌, ◌≡◌, refl, sym, ap, ◌∙◌, Bool, true, false, ◌&&◌, some, List, [],
  ◌∷◌, ◌++◌, arith, ltb, leb, ◌==◌, length, length-append, snoc_append, append_nil,
}
use my_misu_os.Shell.{
  max_field, field_key, read_field, accepts, read_round, login_rounds, login_screen,
}

-- Characters that a field stores.
unfoldable pub printable : List ℕ → Bool
printable [] = true
printable (c ∷ cs) = (leb 32 c && ltb c 127) && printable cs

-- A name and a password that fit their fields.
pub record IsTyped (user pass : List ℕ) : Type 0 where
  pub user_ok : printable user ≡ true
  pub user_le : length user ≤ max_field
  pub pass_ok : printable pass ≡ true
  pub pass_le : length pass ≤ max_field

-- The keys of one attempt, and those of several.
unfoldable pub attempt : List ℕ → List ℕ → List ℕ → List ℕ
attempt user pass rest = user ++ 10 ∷ (pass ++ 10 ∷ rest)

unfoldable pub attempts : List (List ℕ × List ℕ) → List ℕ → List ℕ
attempts [] rest = rest
attempts ((user, pass) ∷ more) rest = attempt user pass (attempts more rest)

-- The attempts fit their fields and are refused.
unfoldable pub AllRefused : List (List ℕ × List ℕ) → Type 0
AllRefused [] = Unit
AllRefused ((user, pass) ∷ more) = IsTyped user pass × (accepts user pass ≡ false) × AllRefused more

field_key-plain :
    (field : List ℕ) (c : ℕ)
    → (leb 32 c && ltb c 127) ≡ true
    → length field < max_field
    → field_key field c ≡ field ++ c ∷ []
unfolding field_key
field_key-plain field c ok room = ground arith

read_field-typed :
    (field w rest : List ℕ)
    → printable w ≡ true
    → length field + length w ≤ max_field
    → read_field field (w ++ 10 ∷ rest) ≡ some (field ++ w, rest)
unfolding read_field printable
read_field-typed field [] rest ok fits = ap (λ f. some (f, rest)) (sym (append_nil field))
read_field-typed field (c ∷ w) rest ok fits =
    let this : (leb 32 c && ltb c 127) ≡ true = ground (arith, ok) in
    let plain : (c == 10) ≡ false = ground (arith, this) in
    let stored = field_key-plain field c this (omega arith) in
    rw (plain, stored)
      (read_field-typed (field ++ c ∷ []) w rest (ground (arith, ok))
          (omega (arith, length-append field (c ∷ [])))
        ∙ ap (λ f. some (f, rest)) (snoc_append field c w))

read_round-typed :
    (user pass rest : List ℕ)
    → IsTyped user pass
    → read_round (attempt user pass rest) ≡ some (user, pass, rest)
unfolding read_round attempt
read_round-typed user pass rest t =
    let first = read_field-typed [] user (pass ++ 10 ∷ rest) t.user_ok (omega (arith, t.user_le)) in
    let second = read_field-typed [] pass rest t.pass_ok (omega (arith, t.pass_le)) in
    rw (read_round, first, second) refl

login_rounds-accepted :
    (fuel n : ℕ) (refused : List (List ℕ × List ℕ)) (user pass rest : List ℕ)
    → length refused < fuel
    → AllRefused refused
    → IsTyped user pass
    → accepts user pass ≡ true
    → login_rounds fuel n (attempts refused (attempt user pass rest))
      ≡ some (user, n + length refused, rest)
unfolding login_rounds attempts AllRefused
login_rounds-accepted zero n refused user pass rest lt bad t good = absurd (omega arith)
login_rounds-accepted (suc fuel) n [] user pass rest lt bad t good =
    rw (login_rounds, read_round-typed user pass rest t, good)
      (ap (λ m. some (user, m, rest)) (omega arith))
login_rounds-accepted (suc fuel) n ((u, p) ∷ more) user pass rest lt (t', wrong, others) t good =
    rw (login_rounds, read_round-typed u p (attempts more (attempt user pass rest)) t', wrong)
      (login_rounds-accepted fuel (n + 1) more user pass rest (omega arith) others t good
        ∙ ap (λ m. some (user, m, rest)) (omega arith))

length-attempts :
    (refused : List (List ℕ × List ℕ)) (rest : List ℕ)
    → length refused + length rest ≤ length (attempts refused rest)
unfolding attempts attempt
length-attempts [] rest = omega arith
length-attempts ((u, p) ∷ more) rest = omega (
  arith,
  length-attempts more rest,
  length-append u (10 ∷ (p ++ 10 ∷ attempts more rest)),
  length-append p (10 ∷ attempts more rest),
)

length-attempt : (user pass rest : List ℕ) → 2 ≤ length (attempt user pass rest)
unfolding attempt
length-attempt user pass rest =
    omega (arith, length-append user (10 ∷ (pass ++ 10 ∷ rest)), length-append pass (10 ∷ rest))

-- After any number of attempts that are refused, a name with its password, of at most 31 printable
-- characters each, gets past the login; it counts the refused attempts and leaves the keys that were
-- typed behind the password.
pub login_screen-accepted :
    (refused : List (List ℕ × List ℕ)) (user pass rest : List ℕ)
    → AllRefused refused
    → IsTyped user pass
    → accepts user pass ≡ true
    → login_screen (attempts refused (attempt user pass rest)) ≡ some (user, length refused, rest)
unfolding login_screen
login_screen-accepted refused user pass rest bad t good =
    login_rounds-accepted (length (attempts refused (attempt user pass rest))) 0 refused user pass
      rest
      (omega
        (arith, length-attempts refused (attempt user pass rest), length-attempt user pass rest))
      bad t good
    ∙ ap (λ m. some (user, m, rest)) (omega arith)
