-- ===== src/Shell/Words.antt =====
-- The arguments that `execute_command` of src/shell.c takes from a line.
use my_misu_os.Base.{
  ℕ, zero, suc, ◌-◌, ◌≡◌, refl, sym, ap, ◌∙◌, Bool, true, false, not, ◌&&◌, List, [], ◌∷◌, ◌++◌,
  arith, ltb, ◌==◌, length, take, replicate,
}
use my_misu_os.Shell.{skip_spaces, first_word, behind_word, words}

-- Words, each behind a number of spaces and with at least one between two of them, and `t` spaces at the
-- end.
unfoldable pub spread : List (ℕ × List ℕ) → ℕ → List ℕ
spread [] t = replicate t b' '
spread ((g, w) ∷ []) t = replicate g b' ' ++ (w ++ replicate t b' ')
spread ((g, w) ∷ b ∷ ws) t = replicate g b' ' ++ (w ++ b' ' ∷ spread (b ∷ ws) t)

unfoldable pub texts : List (ℕ × List ℕ) → List (List ℕ)
texts [] = []
texts ((g, w) ∷ ws) = w ∷ texts ws

-- The text has no space.
unfoldable pub solid : List ℕ → Bool
solid [] = true
solid (c ∷ cs) = not (c == b' ') && solid cs

-- Every word has a character and no space.
unfoldable pub all_solid : List (ℕ × List ℕ) → Bool
all_solid [] = true
all_solid ((g, w) ∷ ws) = ltb 0 (length w) && solid w && all_solid ws

skip-replicate : (g : ℕ) (rest : List ℕ) → skip_spaces (replicate g b' ' ++ rest) ≡ skip_spaces rest
unfolding skip_spaces
skip-replicate zero rest = refl
skip-replicate (suc g) rest = skip-replicate g rest

skip-spaces : (t : ℕ) → skip_spaces (replicate t b' ') ≡ []
unfolding skip_spaces
skip-spaces zero = refl
skip-spaces (suc t) = skip-spaces t

skip-solid :
    (w rest : List ℕ) → (ltb 0 (length w) && solid w) ≡ true → skip_spaces (w ++ rest) ≡ w ++ rest
unfolding skip_spaces solid
skip-solid [] rest e = ground (arith, e)
skip-solid (c ∷ cs) rest e = let other : (c == b' ') ≡ false = ground (arith, e) in rw other refl

first-end : (w : List ℕ) (t : ℕ) → solid w ≡ true → first_word (w ++ replicate t b' ') ≡ w
unfolding first_word solid
first-end [] zero e = refl
first-end [] (suc t) e = refl
first-end (c ∷ cs) t e =
    let other : (c == b' ') ≡ false = ground (arith, e) in
    rw other (ap (λ l. c ∷ l) (first-end cs t (ground (arith, e))))

first-solid : (w rest : List ℕ) → solid w ≡ true → first_word (w ++ b' ' ∷ rest) ≡ w
unfolding first_word solid
first-solid [] rest e = refl
first-solid (c ∷ cs) rest e =
    let other : (c == b' ') ≡ false = ground (arith, e) in
    rw other (ap (λ l. c ∷ l) (first-solid cs rest (ground (arith, e))))

behind-end :
    (w : List ℕ) (t : ℕ)
    → solid w ≡ true
    → behind_word (w ++ replicate t b' ') ≡ replicate (t - 1) b' '
unfolding behind_word solid
behind-end [] zero e = refl
behind-end [] (suc t) e = ap (λ n. replicate n b' ') (omega arith)
behind-end (c ∷ cs) t e =
    let other : (c == b' ') ≡ false = ground (arith, e) in
    rw other (behind-end cs t (ground (arith, e)))

behind-solid : (w rest : List ℕ) → solid w ≡ true → behind_word (w ++ b' ' ∷ rest) ≡ rest
unfolding behind_word solid
behind-solid [] rest e = refl
behind-solid (c ∷ cs) rest e =
    let other : (c == b' ') ≡ false = ground (arith, e) in
    rw other (behind-solid cs rest (ground (arith, e)))

words-spaces : (n t : ℕ) → words n (replicate t b' ') ≡ []
unfolding words
words-spaces zero t = refl
words-spaces (suc n) t = rw (words, skip-spaces t) refl

-- The first word, with what the line is behind its spaces.
words-first :
    (n : ℕ) (line w rest : List ℕ)
    → skip_spaces line ≡ w ++ rest
    → (ltb 0 (length w) && solid w) ≡ true
    → first_word (w ++ rest) ≡ w
    → words (suc n) line ≡ w ∷ words n (behind_word (w ++ rest))
unfolding words
words-first n line [] rest e full first = ground (arith, full)
words-first n line (c ∷ cs) rest e full first =
    let some_left : (length (c ∷ (cs ++ rest)) == 0) ≡ false = ground arith in
    rw (words, e, some_left) (ap (λ l. l ∷ words n (behind_word ((c ∷ cs) ++ rest))) first)

take-nil : (n : ℕ) → take {A = List ℕ} n [] ≡ []
take-nil zero = refl
take-nil (suc n) = refl

words-none : (line : List ℕ) → words 0 line ≡ []
unfolding words
words-none line = refl

-- The words of a line with their spaces, in whatever number, are its arguments, the first `n` of them.
pub words-spread :
    (n : ℕ) (ws : List (ℕ × List ℕ)) (t : ℕ)
    → all_solid ws ≡ true
    → words n (spread ws t) ≡ take n (texts ws)
unfolding spread texts all_solid
words-spread zero [] t e = words-none (spread [] t)
words-spread zero ((g, w) ∷ []) t e = words-none (spread ((g, w) ∷ []) t)
words-spread zero ((g, w) ∷ b ∷ ws) t e = words-none (spread ((g, w) ∷ b ∷ ws) t)
words-spread (suc n) [] t e = words-spaces (suc n) t
words-spread (suc n) ((g, w) ∷ []) t e =
    let full : (ltb 0 (length w) && solid w) ≡ true = ground (arith, e) in
    let dense : solid w ≡ true = ground (arith, e) in
    let tail = replicate t b' ' in
    words-first n (replicate g b' ' ++ (w ++ tail)) w tail
      (skip-replicate g (w ++ tail) ∙ skip-solid w tail full) full (first-end w t dense)
    ∙ ap (λ l. w ∷ l)
        (ap (words n) (behind-end w t dense) ∙ words-spaces n (t - 1) ∙ sym (take-nil n))
words-spread (suc n) ((g, w) ∷ b ∷ ws) t e =
    let full : (ltb 0 (length w) && solid w) ≡ true = ground (arith, e) in
    let dense : solid w ≡ true = ground (arith, e) in
    let others : all_solid (b ∷ ws) ≡ true = ground (arith, e) in
    let tail = b' ' ∷ spread (b ∷ ws) t in
    words-first n (replicate g b' ' ++ (w ++ tail)) w tail
      (skip-replicate g (w ++ tail) ∙ skip-solid w tail full) full
      (first-solid w (spread (b ∷ ws) t) dense)
    ∙ ap (λ l. w ∷ l)
        (ap (words n) (behind-solid w (spread (b ∷ ws) t) dense) ∙ words-spread n (b ∷ ws) t others)
