-- ===== src/Shell/Login.antt =====
-- `login_screen` of src/shell.c, for the keys that are typed.
use my_misu_os.Base.{
  ℕ, zero, suc, ◌+◌, ◌-◌, Bool, ◌&&◌, ◌||◌, Option, none, some, List, [], ◌∷◌, ◌++◌, ltb, leb, ◌==◌,
  if◌then◌else◌, length, take, codes,
}
use my_misu_os.Shell.Tasks.{is_text}

abbrev pub max_field : ℕ
max_field = 31

-- A key other than Enter: a backspace takes the last character back, and a printable one is stored if
-- there is room.
unfoldable pub field_key : List ℕ → ℕ → List ℕ
field_key field c =
    if c == 8
    then take (length field - 1) field
    else if ltb (length field) max_field && leb 32 c && ltb c 127
    then field ++ c ∷ []
    else field

-- The loop that reads a field: the field and the keys behind its Enter, `none` while it waits.
unfoldable pub read_field : List ℕ → List ℕ → Option (List ℕ × List ℕ)
read_field field [] = none
read_field field (c ∷ keys) =
    let rest = read_field (field_key field c) keys in if c == 10 then some (field, keys) else rest

-- The names and passwords that are let in.
unfoldable pub accepts : List ℕ → List ℕ → Bool
accepts user pass =
    is_text user (codes "misu") && is_text pass (codes "misu")
    || is_text user (codes "admin") && is_text pass (codes "admin")
    || is_text user (codes "james") && is_text pass (codes "1234")

-- One round of the loop: what the two fields were, and the keys behind them.
unfoldable pub read_round : List ℕ → Option (List ℕ × List ℕ × List ℕ)
read_round keys = elim (read_field [] keys) [
  | none ↦ none
  | some (user, keys') ↦ elim (read_field [] keys') [
    | none ↦ none
    | some (pass, keys'') ↦ some (user, pass, keys'')
  ]
]

-- The loop, with the attempts that failed so far; the result is the name that is greeted, the failed
-- attempts and the keys that are left. Each round takes two keys at least, so that the number of keys is
-- enough fuel.
unfoldable pub login_rounds : ℕ → ℕ → List ℕ → Option (List ℕ × ℕ × List ℕ)
login_rounds zero attempts keys = none
login_rounds (suc fuel) attempts keys = elim (read_round keys) [
  | none ↦ none
  | some (user, pass, keys') ↦
      let rest = login_rounds fuel (attempts + 1) keys' in
      if accepts user pass then some (user, attempts, keys') else rest
]

unfoldable pub login_screen : List ℕ → Option (List ℕ × ℕ × List ℕ)
login_screen keys = login_rounds (length keys) 0 keys
