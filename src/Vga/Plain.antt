-- ===== src/Vga/Plain.antt =====
-- The characters other than the newline: `terminal_putchar` of src/vga.c against the sheet.
use my_misu_os.Base.{if_both}
use my_misu_os.Base.{
  ℕ, ◌+◌, ◌-◌, ◌*◌, ◌/◌, ◌<◌, ◌≡◌, refl, ap₂, subst, ◌∙◌, inl, inr, false, ◌&&◌, arith, ◌==◌,
  if◌then◌else◌, Bool-cases, length, set, length-set, get_or-set,
}
use my_misu_os.Vga.{
  vga_width, vga_entry, Terminal, keep_row, finish, put_plain, terminal_update_cursor,
}
use my_misu_os.Vga.Screen.{IsScreen}
use my_misu_os.Vga.Paper.{Paper, mark, print, Shows}
use my_misu_os.Vga.Feed.{keep_row-inside, wrap_column-go_to}

-- A cell is the one under the cursor exactly when its line and its column are.
same_cell :
    (t : Terminal) (p : Paper) (x y x' : ℕ)
    → x < vga_width
    → x' < vga_width
    → p.line ≡ p.top + t.row
    → (t.row * vga_width + x == y * vga_width + x') ≡ (p.top + y == p.line && x' == x)
same_cell t p x y x' lt lt' e = ground arith

-- A cell is written in the line of the cursor.
marked-Shows :
    (t : Terminal) (p : Paper) (x column v : ℕ)
    → IsScreen t
    → Shows t p
    → x < vga_width
    → Shows
        (record t { buffer = set t.buffer (t.row * vga_width + x) v; column = column })
        (record p { ink = mark p.ink p.line x v; place = column })
unfolding mark
marked-Shows t p x column v s h lt = record {
  cells = λ y x' ly lx.
      let fits : t.row * vga_width + x < length t.buffer = omega (arith, s.cells, s.row_lt) in
      get_or-set t.buffer (t.row * vga_width + x) (y * vga_width + x') v 0 fits
      ∙ ap₂ (λ b w. if b then v else w) (same_cell t p x y x' lt lx h.line_eq) (h.cells y x' ly lx);
  line_eq = h.line_eq;
  place_eq = refl;
  tint_eq = h.tint_eq;
}

pub finish-Shows : (t : Terminal) (p : Paper) → Shows (keep_row t) p → Shows (finish t) p
unfolding finish terminal_update_cursor
finish-Shows t p h = record {
  cells = h.cells;
  line_eq = h.line_eq;
  place_eq = h.place_eq;
  tint_eq = h.tint_eq;
}

moved-Shows :
    (t : Terminal) (p : Paper) (x : ℕ)
    → Shows t p
    → Shows (record t { column = x }) (record p { place = x })
moved-Shows t p x h = record {
  cells = h.cells;
  line_eq = h.line_eq;
  place_eq = refl;
  tint_eq = h.tint_eq;
}

back_space-Shows :
    (t : Terminal) (p : Paper)
    → IsScreen t
    → Shows t p
    → (t.column == 0) ≡ false
    → Shows
        (keep_row (record t {
          column = t.column - 1;
          buffer = set t.buffer (t.row * vga_width + t.column - 1) (vga_entry b' ' t.color);
        }))
        (record p {
          place = t.column - 1;
          ink = mark p.ink p.line (t.column - 1) (vga_entry b' ' t.color);
        })
back_space-Shows t p s h e =
    let index : t.row * vga_width + t.column - 1 ≡ t.row * vga_width + (t.column - 1) =
      ground arith in
    rw index (
      keep_row-inside
        (record t {
          column = t.column - 1;
          buffer = set t.buffer (t.row * vga_width + (t.column - 1)) (vga_entry b' ' t.color);
        })
        (record p {
          place = t.column - 1;
          ink = mark p.ink p.line (t.column - 1) (vga_entry b' ' t.color);
        })
        s.row_lt
        (marked-Shows t p (t.column - 1) (t.column - 1) (vga_entry b' ' t.color) s h
          (omega (arith, s.column_lt))))

-- The sheet with the pen at the cursor.
at_cursor : Terminal → Paper → Paper
at_cursor t p = record p { place = t.column; tint = t.color }

at_cursor-Shows :
    (t : Terminal) (p : Paper) → Shows t p → Shows t (at_cursor t p) × (at_cursor t p ≡ p)
unfolding at_cursor
at_cursor-Shows t p h = (
  record { cells = h.cells; line_eq = h.line_eq; place_eq = refl; tint_eq = refl },
  rw⁻¹ (h.place_eq, h.tint_eq) refl,
)

print-at_cursor :
    (t : Terminal) (p : Paper) (c : ℕ)
    → IsScreen t
    → Shows t (at_cursor t p)
    → (c == 10) ≡ false
    → Shows (keep_row (put_plain t c)) (print (at_cursor t p) c)
unfolding put_plain print at_cursor
print-at_cursor t p c s h plain =
    let R : Terminal → Paper → Type 0 = λ s' q. Shows (keep_row s') q in
    let q = at_cursor t p in
    let v = vga_entry c t.color in
    let tab = (t.column + 4) / 4 * 4 in
    let typed = record t {
      buffer = set t.buffer (t.row * vga_width + t.column) v;
      column = t.column + 1;
    } in
    rw plain (
      if_both R (c == 13)
        (keep_row-inside (record t { column = 0 }) (record q { place = 0 }) s.row_lt
          (moved-Shows t q 0 h))
        (if_both R (c == 9)
          (wrap_column-go_to (record t { column = tab }) q tab s.cells s.row_lt
            (moved-Shows t q tab h))
          (if_both R (c == 8)
            (elim (Bool-cases (t.column == 0)) [
              | inl e ↦ rw e (keep_row-inside t q s.row_lt h)
              | inr e ↦ rw e (back_space-Shows t q s h e)
            ])
            (wrap_column-go_to typed (record q { ink = mark p.ink p.line t.column v })
              (t.column + 1) (length-set t.buffer (t.row * vga_width + t.column) v ∙ s.cells)
              s.row_lt (marked-Shows t q t.column (t.column + 1) v s h s.column_lt)))))

pub put_plain-Shows :
    (t : Terminal) (p : Paper) (c : ℕ)
    → IsScreen t
    → Shows t p
    → (c == 10) ≡ false
    → Shows (keep_row (put_plain t c)) (print p c)
put_plain-Shows t p c s h plain =
    let (h', same) = at_cursor-Shows t p h in
    subst (λ q. Shows (keep_row (put_plain t c)) (print q c)) same
      (print-at_cursor t p c s h' plain)
