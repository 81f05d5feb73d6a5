-- ===== src/Shell/State.antt =====
-- What the commands of src/shell.c put on the screen, the words of a command line and the history.
use my_misu_os.Base.{
  ℕ, zero, suc, ◌+◌, ◌-◌, Bool, true, false, Option, none, some, List, [], ◌∷◌, ltb, ◌==◌,
  if◌then◌else◌, length, get_or, set,
}
use my_misu_os.Base.{codes}
use my_misu_os.CStrings.{strcat}
use my_misu_os.Keyboard.{Keyboard}
use my_misu_os.Vga.{
  Terminal, put_all, vga_entry_color, vga_black, terminal_setcolor, terminal_clear,
  terminal_enable_pager, terminal_disable_pager,
}
use my_misu_os.Syscall.{System}

-- A call of the terminal. A call of `kprintf` is given by the text that it prints.
pub data Output : Type 0 where
  say : List ℕ → Output
  tint : ℕ → ℕ → Output
  clear : Output
  pager : Bool → Output

-- A colour on black.
abbrev pub fg : ℕ → Output
fg color = tint color vga_black

-- The calls one after another; `none` while the pager waits for a key.
unfoldable pub show : List Output → Terminal → Keyboard → Option (Terminal × Keyboard)
show [] t k = some (t, k)
show (say text ∷ rest) t k = elim (put_all t k text) [
  | none ↦ none
  | some (t', k') ↦ show rest t' k'
]
show (tint front back ∷ rest) t k = show rest (terminal_setcolor t (vga_entry_color front back)) k
show (clear ∷ rest) t k = show rest (terminal_clear t) k
show (pager true ∷ rest) t k = show rest (terminal_enable_pager t) k
show (pager false ∷ rest) t k = show rest (terminal_disable_pager t) k

-- A command: what it leaves of the system, and then its output.
unfoldable pub perform : System × List Output → Option System
perform (s, out) = elim (show out s.terminal s.keyboard) [
  | none ↦ none
  | some (t, k) ↦ some (record s { terminal = t; keyboard = k })
]

abbrev pub max_args : ℕ
max_args = 16

-- `while(*tok==' ')tok++`
unfoldable pub skip_spaces : List ℕ → List ℕ
skip_spaces [] = []
skip_spaces (c ∷ cs) = if c == b' ' then skip_spaces cs else c ∷ cs

-- What `while(*tok&&*tok!=' ')tok++` passes, which the 0 in place of the space makes a string, and what
-- stands behind that space.
unfoldable pub first_word : List ℕ → List ℕ
first_word [] = []
first_word (c ∷ cs) = if c == b' ' then [] else c ∷ first_word cs

unfoldable pub behind_word : List ℕ → List ℕ
behind_word [] = []
behind_word (c ∷ cs) = if c == b' ' then cs else behind_word cs

-- The loop of `execute_command` over its line, with room for `n` more arguments: `argv`.
unfoldable pub words : ℕ → List ℕ → List (List ℕ)
words zero line = []
words (suc n) line =
    let tok = skip_spaces line in
    let rest = words n (behind_word tok) in if length tok == 0 then [] else first_word tok ∷ rest

-- `strcat(data,argv[i]);if(i<argc-1)strcat(data," ");` for the arguments in turn.
unfoldable pub join_words : List ℕ → List (List ℕ) → List ℕ
join_words buf [] = buf
join_words buf (a ∷ []) = strcat buf a
join_words buf (a ∷ b ∷ rest) = join_words (strcat (strcat buf a) (codes " ")) (b ∷ rest)

-- `argv[i]`
abbrev pub arg : List (List ℕ) → ℕ → List ℕ
arg argv i = get_or argv i []

abbrev pub max_history : ℕ
max_history = 10

-- `history` and `history_count`.
pub record History : Type 0 where
  pub lines : List (List ℕ)
  pub count : ℕ

-- `for(int i=1;i<MAX_HISTORY;i++)strcpy(history[i-1],history[i]);`, `n` rounds of it from `i` on.
unfoldable pub move_lines : ℕ → ℕ → List (List ℕ) → List (List ℕ)
move_lines zero i lines = lines
move_lines (suc n) i lines = move_lines n (i + 1) (set lines (i - 1) (get_or lines i []))

unfoldable pub history_add : History → List ℕ → History
history_add h cmd =
    if ltb h.count max_history
    then record { lines = set h.lines h.count cmd; count = h.count + 1 }
    else record h { lines = set (move_lines (max_history - 1) 1 h.lines) (max_history - 1) cmd }
