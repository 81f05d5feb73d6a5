-- ===== src/Shell/Calc.antt =====
-- The commands `calc` and `color` of src/shell.c.
use my_misu_os.Base.{
  ℕ, ◌+◌, ◌-◌, ◌*◌, ◌/◌, ◌%◌, ◌^◌, not, ◌&&◌, Option, none, some, List, [], ◌∷◌, ◌++◌, ltb, ◌==◌,
  if◌then◌else◌, length, get_or, ℤ, pos, pos_part, neg_part, neg, is_neg, ltb_ℤ, eq_ℤ, signed32,
  pattern32, codes,
}
use my_misu_os.CStrings.{atoi}
use my_misu_os.Kprintf.{print_int}
use my_misu_os.Vga.{vga_light_grey, vga_light_green}
use my_misu_os.Syscall.{System}
use my_misu_os.Shell.State.{Output, say, tint, fg, arg}
use my_misu_os.Shell.Files.{usage, finish_with}

-- a / b, rounded towards zero; the processor traps when it is not an `int`.
unfoldable pub int_quotient : ℤ → ℤ → Option ℤ
int_quotient a b =
    let q = (pos_part a + neg_part a) / (pos_part b + neg_part b) in
    let same = if is_neg a then is_neg b else not (is_neg b) in
    if same then (if ltb q (2 ^ 31) then some (pos q) else none) else some (neg q)

-- The result of `cmd_calc`: `none` while the processor traps, `some none` for an unknown operator.
unfoldable pub calculate : ℤ → ℕ → ℤ → Option (Option ℤ)
calculate a op b =
    if op == b'+'
    then some (some (signed32 ((pattern32 a + pattern32 b) % 2 ^ 32)))
    else if op == b'-'
    then some (some (signed32 ((pattern32 a + 2 ^ 32 - pattern32 b) % 2 ^ 32)))
    else if op == b'*'
    then some (some (signed32 (pattern32 a * pattern32 b % 2 ^ 32)))
    else if op == b'/'
    then (elim (int_quotient a b) [ none ↦ none | some q ↦ some (some q) ])
    else some none

-- The end of `cmd_calc`; `none` if the processor traps.
unfoldable pub tell_result : System → ℤ → ℕ → ℤ → Option (Option ℤ) → Option (System × List Output)
tell_result s a op b none = none
tell_result s a op b (some none) = some (s, say (codes "  Bad op\n") ∷ fg vga_light_grey ∷ [])
tell_result s a op b (some (some r)) = some (
    finish_with s vga_light_green (
      codes "  "
      ++ print_int a
      ++ codes " "
      ++ (op ∷ codes " ")
      ++ print_int b
      ++ codes " = "
      ++ print_int r
      ++ codes "\n"))

unfoldable pub cmd_calc : System → List (List ℕ) → Option (System × List Output)
cmd_calc s argv =
    let a = atoi (arg argv 1) in
    let b = atoi (arg argv 3) in
    let op = get_or (arg argv 2) 0 0 in
    if ltb (length argv) 4
    then some (usage s (codes "  calc <n> <op> <n>\n"))
    else if op == b'/' && eq_ℤ b (pos 0)
    then some (usage s (codes "  /0!\n"))
    else tell_result s a op b (calculate a op b)

-- `color`
unfoldable pub set_color : System → List (List ℕ) → System × List Output
set_color s argv =
    let front = atoi (arg argv 1) in
    let back = atoi (arg argv 2) in
    let good =
      not (is_neg front) && ltb_ℤ front (pos 16) && not (is_neg back) && ltb_ℤ back (pos 16) in
    if ltb (length argv) 3
    then usage s (codes "  color <fg> <bg>\n")
    else if good
    then (s, tint (pos_part front) (pos_part back) ∷ say (codes "  Done!\n") ∷ [])
    else usage s (codes "  0-15!\n")
