-- ===== src/Kprintf/Pieces.antt =====
-- Formats of src/kprintf.c as lists of pieces, and the text that each piece stands for.
use my_misu_os.Base.{
  ℕ, ◌+◌, ◌%◌, ◌^◌, ◌≡◌, refl, ap, ◌∙◌, Bool, true, false, not, ◌&&◌, List, [], ◌∷◌, ◌++◌, arith,
  ◌==◌, signed32,
}
use my_misu_os.Keyboard.{Keyboard}
use my_misu_os.Vga.{Terminal, put_all}
use my_misu_os.Kprintf.{print_int, print_uint, print_hex, string_of, convert, format, kprintf}

pub data Piece : Type 0 where
  plain : ℕ → Piece
  string : Piece
  int : Piece
  uint : Piece
  hex : Piece
  char : Piece
  percent : Piece

unfoldable pub render : List Piece → List ℕ
render [] = []
render (plain c ∷ ps) = c ∷ render ps
render (string ∷ ps) = b'%' ∷ b's' ∷ render ps
render (int ∷ ps) = b'%' ∷ b'd' ∷ render ps
render (uint ∷ ps) = b'%' ∷ b'u' ∷ render ps
render (hex ∷ ps) = b'%' ∷ b'x' ∷ render ps
render (char ∷ ps) = b'%' ∷ b'c' ∷ render ps
render (percent ∷ ps) = b'%' ∷ b'%' ∷ render ps

-- Every conversion but that of '%' takes one argument, and nothing else does.
unfoldable pub expand : (ℕ → List ℕ) → (ℕ → ℕ) → ℕ → List Piece → List ℕ
expand text_at args next [] = []
expand text_at args next (plain c ∷ ps) = c ∷ expand text_at args next ps
expand text_at args next (string ∷ ps) =
    string_of text_at (args next) ++ expand text_at args (next + 1) ps
expand text_at args next (int ∷ ps) =
    print_int (signed32 (args next)) ++ expand text_at args (next + 1) ps
expand text_at args next (uint ∷ ps) = print_uint (args next) ++ expand text_at args (next + 1) ps
expand text_at args next (hex ∷ ps) = print_hex (args next) ++ expand text_at args (next + 1) ps
expand text_at args next (char ∷ ps) = (args next % 2 ^ 8) ∷ expand text_at args (next + 1) ps
expand text_at args next (percent ∷ ps) = b'%' ∷ expand text_at args next ps

-- The plain characters are neither '%' nor the terminator 0.
unfoldable pub plain_only : List Piece → Bool
plain_only [] = true
plain_only (plain c ∷ ps) = not (c == b'%') && not (c == 0) && plain_only ps
plain_only (_ ∷ ps) = plain_only ps

format-plain :
    (text_at : ℕ → List ℕ) (args : ℕ → ℕ) (next c : ℕ) (fmt : List ℕ)
    → (c == b'%') ≡ false
    → (c == 0) ≡ false
    → format text_at args next (c ∷ fmt) ≡ c ∷ format text_at args next fmt
unfolding format
format-plain text_at args next c [] e z = rw (format, z) refl
format-plain text_at args next c (d ∷ fmt) e z = rw (format, z, e) refl

format-render :
    (text_at : ℕ → List ℕ) (args : ℕ → ℕ) (next : ℕ) (ps : List Piece)
    → plain_only ps ≡ true
    → format text_at args next (render ps) ≡ expand text_at args next ps
unfolding format convert render expand plain_only
format-render text_at args next [] e = refl
format-render text_at args next (plain c ∷ ps) e =
    format-plain text_at args next c (render ps) (ground (arith, e)) (ground (arith, e))
    ∙ ap (λ l. c ∷ l) (format-render text_at args next ps (ground (arith, e)))
format-render text_at args next (string ∷ ps) e =
    ap (λ l. string_of text_at (args next) ++ l) (format-render text_at args (next + 1) ps e)
format-render text_at args next (int ∷ ps) e =
    ap (λ l. print_int (signed32 (args next)) ++ l) (format-render text_at args (next + 1) ps e)
format-render text_at args next (uint ∷ ps) e =
    ap (λ l. print_uint (args next) ++ l) (format-render text_at args (next + 1) ps e)
format-render text_at args next (hex ∷ ps) e =
    ap (λ l. print_hex (args next) ++ l) (format-render text_at args (next + 1) ps e)
format-render text_at args next (char ∷ ps) e =
    ap (λ l. (args next % 2 ^ 8) ∷ l) (format-render text_at args (next + 1) ps e)
format-render text_at args next (percent ∷ ps) e =
    ap (λ l. b'%' ∷ l) (format-render text_at args next ps e)

-- A format of conversions and of plain characters other than '%' and 0 puts the text of each piece on the terminal in turn, the
-- arguments being taken in order by the conversions other than "%%".
pub kprintf-render :
    (text_at : ℕ → List ℕ) (args : ℕ → ℕ) (t : Terminal) (k : Keyboard) (ps : List Piece)
    → plain_only ps ≡ true
    → kprintf text_at t k (render ps) args ≡ put_all t k (expand text_at args 0 ps)
unfolding kprintf
kprintf-render text_at args t k ps e = ap (put_all t k) (format-render text_at args 0 ps e)
