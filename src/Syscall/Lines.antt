-- ===== src/Syscall/Lines.antt =====
-- Reading a line from the keyboard with `sys_read` of src/syscall.c.
use my_misu_os.Base.{
  ℕ, zero, suc, ◌+◌, ◌<◌, ◌≡◌, refl, sym, ap, ◌∙◌, ◌≢◌, inl, inr, false, Option, none, some, List,
  [], ◌∷◌, ◌++◌, arith, ◌==◌, Option-cases, length, set, pos, signed32, count_if,
}
use my_misu_os.Keyboard.{Keyboard, keyboard_getchar}
use my_misu_os.Keyboard.Ring.{
  IsRing, contents, dequeue, seen, keyboard_getchar_refines, keyboard_getchar-IsRing,
}
use my_misu_os.Syscall.{System, answer, read_chars, sys_read}

-- The bytes are stored one after another from index `i` on.
unfoldable pub fill : List ℕ → ℕ → List ℕ → List ℕ
fill buf i [] = buf
fill buf i (c ∷ cs) = fill (set buf i c) (suc i) cs

some-pair :
    {d c : ℕ} {x y : List ℕ}
    → ◌≡◌ {A = Option (ℕ × List ℕ)} (some (d, x)) (some (c, y))
    → (d ≡ c) × (x ≡ y)
some-pair h = (cc, cc)

none-some : {x : ℕ × List ℕ} → none ≢ some x
none-some h = absurd (cc)

-- The next character is the first of the contents.
getchar-cons :
    (k : Keyboard) (c : ℕ) (q : List ℕ)
    → IsRing k
    → contents k ≡ c ∷ q
    → (k' : Keyboard) × (keyboard_getchar k ≡ some (c, k')) × (contents k' ≡ q) × IsRing k'
unfolding dequeue
getchar-cons k c q v e = elim (Option-cases (keyboard_getchar k)) [
  | inl h ↦ absurd (none-some (sym (ap seen h) ∙ (keyboard_getchar_refines k v).0 ∙ ap dequeue e))
  | inr ((d, k'), h) ↦
      let (first, left_over) =
        some-pair (sym (ap seen h) ∙ (keyboard_getchar_refines k v).0 ∙ ap dequeue e) in
      (k', h ∙ ap (λ x. some (x, k')) first, left_over, keyboard_getchar-IsRing k k' d v h)
]

-- A line that waits on the keyboard, shorter than the room left, is read up to its end and no further.
read_chars-line :
    (line rest buf : List ℕ) (k : Keyboard) (left i : ℕ)
    → IsRing k
    → count_if (λ c. c == 10) line ≡ 0
    → contents k ≡ line ++ 10 ∷ rest
    → length line < left
    → (k' : Keyboard) × (read_chars left i buf k
        ≡ some (i + length line + 1, fill buf i (line ++ 10 ∷ []), k'))
      × (contents k' ≡ rest)
unfolding read_chars fill count_if
read_chars-line line rest buf k zero i v plain e lt = absurd (omega arith)
read_chars-line [] rest buf k (suc left) i v plain e lt =
    let (k', h, left_over, v') = getchar-cons k 10 rest v e in
    (k', rw (read_chars, h) (ap (λ n. some (n, set buf i 10, k')) (omega arith)), left_over)
read_chars-line (c ∷ line) rest buf k (suc left) i v plain e lt =
    let (k', h, left_over, v') = getchar-cons k c (line ++ 10 ∷ rest) v e in
    let other : (c == 10) ≡ false = ground arith in
    let none_in : count_if (λ c. c == 10) line ≡ 0 = ground arith in
    let (k'', r, q) =
      read_chars-line line rest (set buf i c) k' left (suc i) v' none_in left_over (omega arith) in
    (
      k'',
      rw (read_chars, h, other)
          (r ∙ ap (λ n. some (n, fill (set buf i c) (suc i) (line ++ 10 ∷ []), k'')) (omega arith)),
      q,
    )

-- With a line and its newline on the keyboard, and room for both in `count`, `sys_read` of standard input
-- does not wait: it returns the number of bytes up to the newline, which it stores from the start of the
-- buffer, and leaves what was typed behind the newline on the keyboard.
pub sys_read-line :
    (s : System) (line rest buf : List ℕ) (count : ℕ)
    → IsRing s.keyboard
    → count_if (λ c. c == 10) line ≡ 0
    → contents s.keyboard ≡ line ++ 10 ∷ rest
    → length line < count
    → (k' : Keyboard) × (sys_read s (pos 0) (some buf) count
        ≡ some (record (answer (record s { keyboard = k' }) (signed32 (length line + 1))) {
          buffer = some (fill buf 0 (line ++ 10 ∷ []));
        }))
      × (contents k' ≡ rest)
unfolding sys_read
sys_read-line s line rest buf count v plain e lt =
    let (k', r, q) = read_chars-line line rest buf s.keyboard count 0 v plain e lt in
    let n : 0 + length line + 1 ≡ length line + 1 = omega arith in
    (k', simp (sys_read, r, n) refl, q)
