-- ===== src/Vga/Paper.antt =====
-- An endless sheet that the screen of src/vga.c is a window on: an independent description of where
-- `terminal_putchar` prints.
use my_misu_os.Base.{
  ℕ, ◌+◌, ◌-◌, ◌*◌, ◌/◌, ◌<◌, ◌≡◌, refl, true, false, ◌&&◌, Option, some, List, [], ◌∷◌, leb, ◌==◌,
  if◌then◌else◌,
}
use my_misu_os.Keyboard.{Keyboard}
use my_misu_os.Vga.{vga_width, vga_height, vga_entry, Terminal}
use my_misu_os.Vga.Cells.{cell_at}
use my_misu_os.Vga.Screen.{IsScreen}

-- A sheet of endless length: its cells, the line at the upper edge of the window, the pen and its
-- colour.
pub record Paper : Type 0 where
  pub ink : ℕ → ℕ → ℕ
  pub top : ℕ
  pub line : ℕ
  pub place : ℕ
  pub tint : ℕ

-- One cell is written.
unfoldable pub mark : (ℕ → ℕ → ℕ) → ℕ → ℕ → ℕ → ℕ → ℕ → ℕ
mark ink line place v y x = if y == line && x == place then v else ink y x

-- The line `line` is blank from now on.
unfoldable pub blank_line : (ℕ → ℕ → ℕ) → ℕ → ℕ → ℕ → ℕ → ℕ
blank_line ink line v y x = if y == line then v else ink y x

-- The pen goes to the start of the next line; a line that comes into the window is blank, in the colour
-- of the pen.
unfoldable pub feed : Paper → Paper
feed p =
    if p.line + 1 == p.top + vga_height
    then record p {
      ink = blank_line p.ink (p.line + 1) (vga_entry b' ' p.tint);
      top = p.top + 1;
      line = p.line + 1;
      place = 0;
    }
    else record p { line = p.line + 1; place = 0 }

unfoldable pub go_to : Paper → ℕ → Paper
go_to p x = if leb vga_width x then feed p else record p { place = x }

unfoldable pub print : Paper → ℕ → Paper
print p c =
    if c == 10
    then feed p
    else if c == 13
    then record p { place = 0 }
    else if c == 9
    then go_to p ((p.place + 4) / 4 * 4)
    else if c == 8
    then (if p.place == 0 then p else record p {
      place = p.place - 1;
      ink = mark p.ink p.line (p.place - 1) (vga_entry b' ' p.tint);
    })
    else go_to (record p { ink = mark p.ink p.line p.place (vga_entry c p.tint) }) (p.place + 1)

unfoldable pub print_all : Paper → List ℕ → Paper
print_all p [] = p
print_all p (c ∷ cs) = print_all (print p c) cs

-- The screen shows the window of the sheet, with its cursor at the pen.
pub record Shows (t : Terminal) (p : Paper) : Type 0 where
  pub cells : (y x : ℕ) → y < vga_height → x < vga_width → cell_at t y x ≡ p.ink (p.top + y) x
  pub line_eq : p.line ≡ p.top + t.row
  pub place_eq : p.place ≡ t.column
  pub tint_eq : p.tint ≡ t.color

-- What a call leaves that shows the sheet and does not page.
unfoldable pub Prints : Option (Terminal × Keyboard) → Keyboard → Paper → Type 0
Prints left k p =
    (t' : Terminal) × (left ≡ some (t', k)) × IsScreen t' × Shows t' p × (t'.pager_enabled ≡ false)

pub print-newline : (p : Paper) (c : ℕ) → (c == 10) ≡ true → print p c ≡ feed p
unfolding print
print-newline p c e = rw e refl
