-- ===== src/Shell/LetIn.antt =====
-- What who gets past `login_screen` of src/shell.c has typed.
use my_misu_os.Base.{
  ap₂, not, ℕ, zero, suc, ◌+◌, ◌≡◌, refl, sym, ap, subst, ◌∙◌, inl, inr, Bool, true, false, ◌&&◌,
  Option, none, some, List, [], ◌∷◌, ◌++◌, arith, ◌==◌, Bool-cases, Option-cases, length,
}
use my_misu_os.Shell.{field_key, accepts, read_field, read_round, login_rounds, login_screen}
use my_misu_os.Shell.Entry.{attempt}

-- What a field holds after some keys.
unfoldable pub typed_in : List ℕ → List ℕ → List ℕ
typed_in field [] = field
typed_in field (c ∷ keys) = typed_in (field_key field c) keys

unfoldable pub no_enter : List ℕ → Bool
no_enter [] = true
no_enter (c ∷ cs) = not (c == 10) && no_enter cs

-- The keys `u` and `p` without Enter make the name `user` and the password `pass`.
pub record IsEntry (u p user pass : List ℕ) : Type 0 where
  pub no_enter_u : no_enter u ≡ true
  pub no_enter_p : no_enter p ≡ true
  pub user_eq : typed_in [] u ≡ user
  pub pass_eq : typed_in [] p ≡ pass

-- The first `n` attempts in the keys are refused, and `rest` is behind them.
unfoldable pub Refused : ℕ → List ℕ → List ℕ → Type 0
Refused zero keys rest = keys ≡ rest
Refused (suc n) keys rest =
    (u : List ℕ) × (p : List ℕ) × (behind : List ℕ) × (keys ≡ attempt u p behind)
    × IsEntry u p (typed_in [] u) (typed_in [] p)
    × (accepts (typed_in [] u) (typed_in [] p) ≡ false)
    × Refused n behind rest

-- After `n` refused attempts the keys have one with the name `user` and a password that is accepted with
-- it, and then `rest`.
pub record IsLetIn (n : ℕ) (keys user rest : List ℕ) : Type 0 where
  pub user_keys : List ℕ
  pub pass_keys : List ℕ
  pub pass : List ℕ
  pub refused : Refused n keys (attempt user_keys pass_keys rest)
  pub entry : IsEntry user_keys pass_keys user pass
  pub accepted : accepts user pass ≡ true

-- The parts of a result.
pair-eq :
    {B : Type 0} {a a' : List ℕ} {b b' : B}
    → ◌≡◌ {A = Option (List ℕ × B)} (some (a, b)) (some (a', b'))
    → (a ≡ a') × (b ≡ b')
pair-eq {a} {b} e =
    (ap (λ o. elim o [ none ↦ a | some x ↦ x.0 ]) e, ap (λ o. elim o [ none ↦ b | some x ↦ x.1 ]) e)

triple-eq :
    {B : Type 0} {a a' : List ℕ} {b b' : B} {c c' : List ℕ}
    → ◌≡◌ {A = Option (List ℕ × B × List ℕ)} (some (a, b, c)) (some (a', b', c'))
    → (a ≡ a') × (b ≡ b') × (c ≡ c')
triple-eq {a} {b} {c} e = (
  ap (λ o. elim o [ none ↦ a | some x ↦ x.0 ]) e,
  ap (λ o. elim o [ none ↦ b | some x ↦ x.1 ]) e,
  ap (λ o. elim o [ none ↦ c | some x ↦ x.2 ]) e,
)

read_field_sound :
    (field keys w rest : List ℕ)
    → read_field field keys ≡ some (w, rest)
    → (u : List ℕ) × (keys ≡ u ++ 10 ∷ rest) × (no_enter u ≡ true) × (typed_in field u ≡ w)
unfolding read_field no_enter typed_in
read_field_sound field [] w rest e = absurd (cc)
read_field_sound field (c ∷ keys) w rest e = elim (Bool-cases (c == 10)) [
  | inl q ↦
      let (same, same') = pair-eq (rw (read_field, q) at e) in
      let enter : c ≡ 10 = ground (arith, q) in ([], ap₂ (λ x l. x ∷ l) enter same', refl, same)
  | inr q ↦
      let (u, split, none_u, typed) =
        read_field_sound (field_key field c) keys w rest (rw (read_field, q) at e) in
      (c ∷ u, ap (λ l. c ∷ l) split, ground (arith, q, none_u), typed)
]

read_round_sound :
    (keys user pass rest : List ℕ)
    → read_round keys ≡ some (user, pass, rest)
    → (u : List ℕ) × (p : List ℕ) × (keys ≡ attempt u p rest) × IsEntry u p user pass
unfolding read_round attempt
read_round_sound keys user pass rest e = elim (Option-cases (read_field [] keys)) [
  | inl q ↦ absurd (cc (rw (read_round, q) at e))
  | inr ((w, behind), q) ↦ elim (Option-cases (read_field [] behind)) [
    | inl q' ↦ absurd (cc (rw (read_round, q, q') at e))
    | inr ((w', behind'), q') ↦
        let (same, same', same'') = triple-eq (rw (read_round, q, q') at e) in
        let (u, split, plain, typed) = read_field_sound [] keys w behind q in
        let (p, split', plain', typed') = read_field_sound [] behind w' behind' q' in
        (
          u,
          p,
          split ∙ ap (λ l. u ++ 10 ∷ l) (split' ∙ ap (λ l. p ++ 10 ∷ l) same''),
          record {
            no_enter_u = plain;
            no_enter_p = plain';
            user_eq = typed ∙ same;
            pass_eq = typed' ∙ same';
          },
        )
  ]
]

login_rounds-safe :
    (fuel n : ℕ) (keys user rest : List ℕ) (m : ℕ)
    → login_rounds fuel n keys ≡ some (user, m, rest)
    → (j : ℕ) × (m ≡ n + j) × IsLetIn j keys user rest
unfolding login_rounds Refused
login_rounds-safe zero n keys user rest m e = absurd (cc)
login_rounds-safe (suc fuel) n keys user rest m e = elim (Option-cases (read_round keys)) [
  | inl q ↦ absurd (cc (rw (login_rounds, q) at e))
  | inr ((w, w', behind), q) ↦
      let (u, p, split, entry) = read_round_sound keys w w' behind q in
      elim (Bool-cases (accepts w w')) [
        | inl good ↦
            let (same, count, left) = triple-eq (rw (login_rounds, q, good) at e) in
            (
              0,
              sym count ∙ omega arith,
              record {
                user_keys = u;
                pass_keys = p;
                pass = w';
                refused = split ∙ ap (attempt u p) left;
                entry = record {
                  no_enter_u = entry.no_enter_u;
                  no_enter_p = entry.no_enter_p;
                  user_eq = entry.user_eq ∙ same;
                  pass_eq = entry.pass_eq;
                };
                accepted = subst (λ x. accepts x w' ≡ true) same good;
              },
            )
        | inr bad ↦
            let (j, count, after) =
              login_rounds-safe fuel (n + 1) behind user rest m (rw (login_rounds, q, bad) at e) in
            (
              suc j,
              count ∙ omega arith,
              record {
                user_keys = after.user_keys;
                pass_keys = after.pass_keys;
                pass = after.pass;
                entry = after.entry;
                accepted = after.accepted;
                refused = (
                  u,
                  p,
                  behind,
                  split,
                  record {
                    no_enter_u = entry.no_enter_u;
                    no_enter_p = entry.no_enter_p;
                    user_eq = refl;
                    pass_eq = refl;
                  },
                  ap₂ accepts entry.user_eq entry.pass_eq ∙ bad,
                  after.refused,
                );
              },
            )
      ]
]

-- Whatever keys are typed, who gets past the login has typed, after `n` attempts that are refused, a name
-- and a password that are accepted together; the name is the one that is greeted, and the keys behind the
-- password are left.
pub login_screen-safe :
    (keys user rest : List ℕ) (n : ℕ)
    → login_screen keys ≡ some (user, n, rest)
    → IsLetIn n keys user rest
unfolding login_screen
login_screen-safe keys user rest n e =
    let (j, count, let_in) = login_rounds-safe (length keys) 0 keys user rest n e in
    subst (λ i. IsLetIn i keys user rest) (sym (count ∙ omega arith)) let_in
