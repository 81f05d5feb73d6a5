-- ===== src/Vga/Feed.antt =====
-- The line feed of src/vga.c, with its scrolling, against that of the sheet.
use my_misu_os.Base.{
  ℕ, ◌+◌, ◌*◌, ◌%◌, ◌^◌, ◌<◌, ◌≡◌, refl, sym, ap, ◌∙◌, inl, inr, true, false, arith, leb, ◌==◌,
  Bool-cases, length,
}
use my_misu_os.Vga.{
  vga_width, vga_height, vga_entry, Terminal, terminal_scroll, keep_row, wrap_column,
}
use my_misu_os.Vga.Cells.{cell_at, scroll-cell}
use my_misu_os.Vga.Screen.{IsAlmost}
use my_misu_os.Vga.Paper.{Paper, blank_line, feed, go_to, Shows}

-- The same with the cursor at the start of the line below that of the pen, perhaps below the screen.
pub record Waits (t : Terminal) (p : Paper) : Type 0 where
  pub cells : (y x : ℕ) → y < vga_height → x < vga_width → cell_at t y x ≡ p.ink (p.top + y) x
  pub line_eq : p.line + 1 ≡ p.top + t.row
  pub column_eq : t.column ≡ 0
  pub tint_eq : p.tint ≡ t.color

scrolled-ink :
    (t : Terminal) (p : Paper) (y x : ℕ)
    → IsAlmost t
    → Waits t p
    → t.row ≡ vga_height
    → y < vga_height
    → x < vga_width
    → cell_at (terminal_scroll t) y x
      ≡ blank_line p.ink (p.line + 1) (vga_entry b' ' p.tint) (p.top + 1 + y) x
unfolding blank_line
scrolled-ink t p y x a w e lt lt' =
    let index : p.top + (y + 1) ≡ p.top + 1 + y = omega arith in
    scroll-cell t y x a.cells lt lt' ∙ (elim (Bool-cases (y + 1 == vga_height)) [
      | inl last ↦
          let same : (p.top + 1 + y == p.line + 1) ≡ true = ground (arith, w.line_eq, e, last) in
          rw (last, same, w.tint_eq) refl
      | inr upper ↦
          let other : (p.top + 1 + y == p.line + 1) ≡ false = ground (arith, w.line_eq, e, upper) in
          rw (upper, other) (w.cells (y + 1) x (ground arith) lt' ∙ ap (λ n. p.ink n x) index)
    ])

pub keep_row-feed :
    (t : Terminal) (p : Paper) → IsAlmost t → Waits t p → Shows (keep_row t) (feed p)
unfolding keep_row feed terminal_scroll
keep_row-feed t p a w = elim (Bool-cases (leb vga_height t.row)) [
  | inl e ↦
      let full : t.row ≡ vga_height = ground (arith, a.row_le, e) in
      let at_end : (p.line + 1 == p.top + vga_height) ≡ true = ground (arith, w.line_eq, full) in
      rw (e, at_end)
        (record {
          cells = λ y x lt lt'. scrolled-ink t p y x a w full lt lt';
          line_eq = omega (arith, w.line_eq, full);
          place_eq = sym w.column_eq;
          tint_eq = w.tint_eq;
        })
  | inr e ↦
      let inside : (p.line + 1 == p.top + vga_height) ≡ false = ground (arith, w.line_eq, e) in
      rw (e, inside)
        (record {
          cells = w.cells;
          line_eq = w.line_eq;
          place_eq = sym w.column_eq;
          tint_eq = w.tint_eq;
        })
]

-- The state of the pen and the window from which no scrolling is due.
pub keep_row-inside :
    (t : Terminal) (p : Paper) → t.row < vga_height → Shows t p → Shows (keep_row t) p
unfolding keep_row
keep_row-inside t p lt h = let inside : leb vga_height t.row ≡ false = ground arith in rw inside h

pub wrap_column-go_to :
    (t : Terminal) (p : Paper) (x : ℕ)
    → length t.buffer ≡ vga_height * vga_width
    → t.row < vga_height
    → Shows t (record p { place = x })
    → Shows (keep_row (wrap_column t)) (go_to p x)
unfolding wrap_column go_to
wrap_column-go_to t p x len lt h = elim (Bool-cases (leb vga_width t.column)) [
  | inl e ↦
      let wide : leb vga_width x ≡ true = ap (leb vga_width) h.place_eq ∙ e in
      let below = record t { column = 0; row = (t.row + 1) % 2 ^ 32 } in
      rw (e, wide)
        (keep_row-feed below p
          (record { cells = len; row_le = omega arith; column_lt = omega arith })
          (record {
            cells = h.cells;
            line_eq = omega (arith, h.line_eq);
            column_eq = refl;
            tint_eq = h.tint_eq;
          }))
  | inr e ↦
      let narrow : leb vga_width x ≡ false = ap (leb vga_width) h.place_eq ∙ e in
      rw (e, narrow) (keep_row-inside t (record p { place = x }) lt h)
]
