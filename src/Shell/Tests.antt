-- ===== src/Shell/Tests.antt =====
-- Command lines of src/shell.c.
use my_misu_os.Base.{
  ℕ, ◌+◌, ◌-◌, ◌^◌, ◌<◌, min, ◌≡◌, refl, true, none, List, [], ◌∷◌, ◌++◌, arith, length, get_or,
  take, replicate, codes,
}
use my_misu_os.Process.{process_init}
use my_misu_os.Syscall.Tests.{booted, booted-IsSound}
use my_misu_os.Shell.{words, Shell, execute_command}
use my_misu_os.Shell.Sound.{Ends}
use my_misu_os.Shell.Keeps.{execute_command-Ends}
use my_misu_os.Base.{min, length, get_or, ◌-◌, ◌++◌}
use my_misu_os.Shell.{max_history}
use my_misu_os.Shell.Recent.{added, history_add-recent}
use my_misu_os.CStrings.{strcmp}
use my_misu_os.Shell.{is_text, accepts, login_screen}
use my_misu_os.Shell.LetIn.{IsLetIn, login_screen-safe}
use my_misu_os.Shell.Entry.{
  printable, IsTyped, attempt, attempts, AllRefused, login_screen-accepted,
}
use my_misu_os.Base.{some, ◌≤◌}
use my_misu_os.Base.{false}
use my_misu_os.Shell.{is_app, words, max_args, arg, skip_spaces, first_word, behind_word}
use my_misu_os.Shell.Words.{solid, spread, texts, all_solid, words-spread}

-- "  write   a.txt hello "
abbrev typed_words : List (ℕ × List ℕ)
typed_words = (2, codes "write") ∷ (2, codes "a.txt") ∷ (0, codes "hello") ∷ []

typed_solid : all_solid typed_words ≡ true
unfolding all_solid solid
typed_solid = refl

words-spread_example : words 16 (spread typed_words 1) ≡ take 16 (texts typed_words)
words-spread_example = words-spread 16 typed_words 1 typed_solid

abbrev shell : Shell
shell = record {
  history = record { lines = replicate 10 []; count = 0 };
  addresses = record {
    wrapper = 0x100000;
    counter_task = 0x101000;
    spinner_task = 0x102000;
    ticker_task = 0x103000;
  };
  local = replicate 4096 0;
  local' = replicate 4096 0;
  rtc = λ i. 0x10 + i;
}

pids_left : booted.kernel.next_pid + 3 < 2 ^ 32
unfolding process_init
pids_left = omega arith

-- Twelve lines.
abbrev typed_lines : List (List ℕ)
typed_lines = replicate 11 (codes "ls") ++ codes "pwd" ∷ []

history_add-recent_example :
    ((added typed_lines).count ≡ min (length typed_lines) max_history)
    × ((j : ℕ)
        → j < (added typed_lines).count
        → get_or (added typed_lines).lines ((added typed_lines).count - 1 - j) []
          ≡ get_or typed_lines j [])
history_add-recent_example = history_add-recent typed_lines

known : is_app (arg (words max_args (codes "mkdir docs")) 0) ≡ false
unfolding words is_app is_text skip_spaces first_word behind_word strcmp
known = refl

execute_command-Ends_example : Ends (execute_command shell booted (codes "mkdir docs") none)
unfolding Ends
execute_command-Ends_example =
    execute_command-Ends shell booted (codes "mkdir docs") none pids_left booted-IsSound known

-- One wrong password, then the right one.
abbrev wrong_first : List (List ℕ × List ℕ)
wrong_first = (codes "misu", codes "1234") ∷ []

misu-IsTyped :
    (pass : List ℕ) → printable pass ≡ true → length pass ≤ 31 → IsTyped (codes "misu") pass
unfolding printable
misu-IsTyped pass ok le = record {
  user_ok = refl;
  user_le = omega arith;
  pass_ok = ok;
  pass_le = le;
}

refused_first : AllRefused wrong_first
unfolding AllRefused accepts is_text strcmp printable
refused_first = (misu-IsTyped (codes "1234") refl (omega arith), refl, tt)

let_in : accepts (codes "misu") (codes "misu") ≡ true
unfolding accepts is_text strcmp
let_in = refl

misu_printable : printable (codes "misu") ≡ true
unfolding printable
misu_printable = refl

login_screen-accepted_example :
    login_screen (attempts wrong_first (attempt (codes "misu") (codes "misu") (codes "ls")))
    ≡ some (codes "misu", length wrong_first, codes "ls")
login_screen-accepted_example =
    login_screen-accepted wrong_first (codes "misu") (codes "misu") (codes "ls") refused_first
      (misu-IsTyped (codes "misu") misu_printable (omega arith)) let_in

login_screen-safe_example :
    IsLetIn
      (length wrong_first)
      (attempts wrong_first (attempt (codes "misu") (codes "misu") (codes "ls")))
      (codes "misu")
      (codes "ls")
login_screen-safe_example =
    login_screen-safe (attempts wrong_first (attempt (codes "misu") (codes "misu") (codes "ls")))
      (codes "misu") (codes "ls") (length wrong_first)
      (login_screen-accepted wrong_first (codes "misu") (codes "misu") (codes "ls") refused_first
        (misu-IsTyped (codes "misu") misu_printable (omega arith)) let_in)
