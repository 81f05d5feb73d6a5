-- ===== src/Vga/Printing.antt =====
-- The texts that are printed on the screen of src/vga.c while the pager is off.
use my_misu_os.Base.{
  ℕ, ◌+◌, ◌*◌, ◌/◌, ◌%◌, ◌^◌, ◌≡◌, refl, sym, ap, subst, ◌∙◌, inl, inr, false, some, List, [], ◌∷◌,
  arith, leb, ◌==◌, Bool-cases, length, get_or, if_all,
}
use my_misu_os.Keyboard.{Keyboard}
use my_misu_os.Vga.{
  vga_width, vga_height, vga_entry, Terminal, terminal_scroll, keep_row, finish, wrap_column,
  put_newline, put_plain, terminal_putchar, put_all, terminal_update_cursor, terminal_initialize,
  vga_entry_color, vga_light_grey, vga_black,
}
use my_misu_os.Vga.Cells.{length-fill_lines, fill_lines-inside}
use my_misu_os.Vga.Screen.{IsScreen, IsAlmost, finish-IsScreen, put_plain-IsAlmost}
use my_misu_os.Vga.Paper.{Paper, feed, print, print_all, Shows, Prints, print-newline}
use my_misu_os.Vga.Feed.{Waits, keep_row-feed}
use my_misu_os.Vga.Plain.{put_plain-Shows, finish-Shows}

keep_row-pager : (t : Terminal) → (keep_row t).pager_enabled ≡ t.pager_enabled
unfolding keep_row terminal_scroll
keep_row-pager t =
    if_all (λ (s : Terminal). s.pager_enabled ≡ t.pager_enabled) (leb vga_height t.row) refl refl

put_plain-pager : (t : Terminal) (c : ℕ) → (put_plain t c).pager_enabled ≡ t.pager_enabled
unfolding put_plain wrap_column
put_plain-pager t c =
    let P : Terminal → Type 0 = λ s. s.pager_enabled ≡ t.pager_enabled in
    if_all P (c == 13) refl (
      if_all P (c == 9) (if_all P (leb vga_width ((t.column + 4) / 4 * 4)) refl refl) (
        if_all P (c == 8) (if_all P (t.column == 0) refl refl)
          (if_all P (leb vga_width (t.column + 1)) refl refl)))

below-Waits :
    (t b : Terminal) (p : Paper)
    → Shows t p
    → b.buffer ≡ t.buffer
    → b.color ≡ t.color
    → b.column ≡ 0
    → b.row ≡ t.row + 1
    → Waits b p
below-Waits t b p h eb ec ecol er = record {
  cells = λ y x ly lx. ap (λ buf. get_or buf (y * vga_width + x) 0) eb ∙ h.cells y x ly lx;
  line_eq = omega (arith, h.line_eq, er);
  column_eq = ecol;
  tint_eq = h.tint_eq ∙ sym ec;
}

put_newline-off :
    (t : Terminal) (k : Keyboard) (p : Paper)
    → IsScreen t
    → Shows t p
    → t.pager_enabled ≡ false
    → Prints (put_newline t k) k (feed p)
unfolding Prints put_newline finish terminal_update_cursor
put_newline-off t k p s h off =
    let below = record t { column = 0; row = (t.row + 1) % 2 ^ 32 } in
    let almost : IsAlmost below = record {
      cells = s.cells;
      row_le = omega (arith, s.row_lt);
      column_lt = omega arith;
    } in
    let waits = below-Waits t below p h refl refl refl (omega (arith, s.row_lt)) in
    (
      finish below,
      rw off refl,
      finish-IsScreen below almost,
      finish-Shows below (feed p) (keep_row-feed below p almost waits),
      keep_row-pager below ∙ off,
    )

terminal_putchar-Prints :
    (t : Terminal) (k : Keyboard) (p : Paper) (c : ℕ)
    → IsScreen t
    → Shows t p
    → t.pager_enabled ≡ false
    → Prints (terminal_putchar t k c) k (print p c)
unfolding Prints terminal_putchar finish terminal_update_cursor
terminal_putchar-Prints t k p c s h off = elim (Bool-cases (c == 10)) [
  | inl e ↦
      let (t', ran, s', h', off') = put_newline-off t k p s h off in
      let fed : print p c ≡ feed p = print-newline p c e in rw (e, fed) (t', ran, s', h', off')
  | inr e ↦ rw e (
    finish (put_plain t c),
    refl,
    finish-IsScreen (put_plain t c) (put_plain-IsAlmost t c s),
    finish-Shows (put_plain t c) (print p c) (put_plain-Shows t p c s h e),
    keep_row-pager (put_plain t c) ∙ put_plain-pager t c ∙ off,
  )
]

put_all-first :
    (t : Terminal) (k : Keyboard) (c : ℕ) (cs : List ℕ) (t' : Terminal) (k' : Keyboard)
    → terminal_putchar t k c ≡ some (t', k')
    → put_all t k (c ∷ cs) ≡ put_all t' k' cs
unfolding put_all
put_all-first t k c cs t' k' ran = rw (put_all, ran) refl

pub initialize-pager : (t : Terminal) → (terminal_initialize t).pager_enabled ≡ t.pager_enabled
unfolding terminal_initialize terminal_update_cursor
initialize-pager t = refl

pub put_all-Prints :
    (t : Terminal) (k : Keyboard) (p : Paper) (cs : List ℕ)
    → IsScreen t
    → Shows t p
    → t.pager_enabled ≡ false
    → Prints (put_all t k cs) k (print_all p cs)
unfolding Prints put_all print_all
put_all-Prints t k p [] s h off = (t, refl, s, h, off)
put_all-Prints t k p (c ∷ cs) s h off =
    let (t', ran, s', h', off') = terminal_putchar-Prints t k p c s h off in
    let first : put_all t k (c ∷ cs) ≡ put_all t' k cs = put_all-first t k c cs t' k ran in
    subst (λ left. Prints left k (print_all p (c ∷ cs))) (sym first)
      (put_all-Prints t' k (print p c) cs s' h' off')

-- The sheet before anything is printed.
abbrev pub blank : Paper
blank = record {
  ink = λ y x. vga_entry b' ' (vga_entry_color vga_light_grey vga_black);
  top = 0;
  line = 0;
  place = 0;
  tint = vga_entry_color vga_light_grey vga_black;
}

pub initialize-IsScreen :
    (t : Terminal) → length t.buffer ≡ vga_height * vga_width → IsScreen (terminal_initialize t)
unfolding terminal_initialize terminal_update_cursor
initialize-IsScreen t len = record {
  cells =
      length-fill_lines vga_height 0 (vga_entry b' ' (vga_entry_color vga_light_grey vga_black))
        t.buffer
      ∙ len;
  row_lt = omega arith;
  column_lt = omega arith;
}

pub initialize-Shows :
    (t : Terminal) → length t.buffer ≡ vga_height * vga_width → Shows (terminal_initialize t) blank
unfolding terminal_initialize terminal_update_cursor
initialize-Shows t len = record {
  cells = λ y x ly lx.
      fill_lines-inside vga_height 0 (vga_entry b' ' (vga_entry_color vga_light_grey vga_black))
        t.buffer (y * vga_width + x) (omega (arith, len)) (omega arith) (omega arith);
  line_eq = refl;
  place_eq = refl;
  tint_eq = refl;
}

-- Whatever bytes are written after `terminal_initialize` with the pager off, the screen shows a window of
-- 25 lines on the endless sheet on which the same bytes are printed, without waiting for a key.
pub terminal_initialize-put_all :
    (t : Terminal) (k : Keyboard) (cs : List ℕ)
    → length t.buffer ≡ vga_height * vga_width
    → t.pager_enabled ≡ false
    → (t' : Terminal) × (put_all (terminal_initialize t) k cs ≡ some (t', k))
      × Shows t' (print_all blank cs)
unfolding Prints
terminal_initialize-put_all t k cs len off =
    let (t', ran, s', h', off') =
      put_all-Prints (terminal_initialize t) k blank cs (initialize-IsScreen t len)
        (initialize-Shows t len) (initialize-pager t ∙ off) in
    (t', ran, h')
