-- ===== src/Vga/Screen.antt =====
-- The cursor of src/vga.c stays on the screen.
use my_misu_os.Vga.{copy_lines}
use my_misu_os.Base.{
  ltb_ℤ, signed32, pos, ℕ, ◌+◌, ◌-◌, ◌*◌, ◌/◌, ◌%◌, ◌^◌, ◌≤◌, ◌<◌, ◌≡◌, refl, ◌∙◌, inl, inr, not,
  ◌||◌, Option, none, some, List, [], ◌∷◌, arith, leb, ◌==◌, Bool-cases, length, set, length-set,
  if_all,
}
use my_misu_os.Base.{List, [], ◌∷◌}
use my_misu_os.Keyboard.{Keyboard, keyboard_getchar}
use my_misu_os.Keyboard.Ring.{IsRing, keyboard_getchar-IsRing}
use my_misu_os.Vga.{put_all}
use my_misu_os.Vga.{
  vga_width, vga_height, vga_entry, vga_entry_color, Terminal, fill_cells, terminal_update_cursor,
  terminal_scroll, keep_row, finish, wrap_column, put_text, pager_msg, show_prompt, answer_prompt,
  put_newline, put_plain, terminal_putchar,
}
use my_misu_os.Vga.Cells.{length-fill_cells}
use my_misu_os.Vga.Copies.{length-copy_lines}

pub record IsScreen (t : Terminal) : Type 0 where
  pub cells : length t.buffer ≡ vga_height * vga_width
  pub row_lt : t.row < vga_height
  pub column_lt : t.column < vga_width

-- Before the row is brought back onto the screen.
pub record IsAlmost (t : Terminal) : Type 0 where
  pub cells : length t.buffer ≡ vga_height * vga_width
  pub row_le : t.row ≤ vga_height
  pub column_lt : t.column < vga_width

scroll-cells : (t : Terminal) → length (terminal_scroll t).buffer ≡ length t.buffer
unfolding terminal_scroll
scroll-cells t =
    length-fill_cells vga_width ((vga_height - 1) * vga_width) (vga_entry b' ' t.color)
      (copy_lines (vga_height - 1) 1 t.buffer)
    ∙ length-copy_lines (vga_height - 1) 1 t.buffer

pub keep_row-IsScreen : (t : Terminal) → IsAlmost t → IsScreen (keep_row t)
unfolding keep_row terminal_scroll
keep_row-IsScreen t a = elim (Bool-cases (leb vga_height t.row)) [
  | inl e ↦
      rw e
        (record { cells = scroll-cells t ∙ a.cells; row_lt = omega arith; column_lt = a.column_lt })
  | inr e ↦
      rw e (record { cells = a.cells; row_lt = ground (arith, a.row_le); column_lt = a.column_lt })
]

pub finish-IsScreen : (t : Terminal) → IsAlmost t → IsScreen (finish t)
unfolding finish terminal_update_cursor
finish-IsScreen t a =
    let s = keep_row-IsScreen t a in
    record { cells = s.cells; row_lt = s.row_lt; column_lt = s.column_lt }

length-wrap_column : (t : Terminal) → length (wrap_column t).buffer ≡ length t.buffer
unfolding wrap_column
length-wrap_column t =
    if_all (λ (s : Terminal). length s.buffer ≡ length t.buffer) (leb vga_width t.column) refl refl

length-put_plain : (t : Terminal) (c : ℕ) → length (put_plain t c).buffer ≡ length t.buffer
unfolding put_plain
length-put_plain t c =
    let P : Terminal → Type 0 = λ s. length s.buffer ≡ length t.buffer in
    let idx = t.row * vga_width + t.column in
    let typed = record t {
      buffer = set t.buffer idx (vga_entry c t.color);
      column = t.column + 1;
    } in
    if_all P (c == 13) refl (
      if_all P (c == 9) (length-wrap_column (record t { column = (t.column + 4) / 4 * 4 })) (
        if_all P (c == 8)
          (if_all P (t.column == 0) refl (length-set t.buffer (idx - 1) (vga_entry b' ' t.color)))
          (length-wrap_column typed ∙ length-set t.buffer idx (vga_entry c t.color))))

pub put_plain-IsAlmost : (t : Terminal) (c : ℕ) → IsScreen t → IsAlmost (put_plain t c)
unfolding put_plain wrap_column
put_plain-IsAlmost t c s = record {
  cells = length-put_plain t c ∙ s.cells;
  row_le = ground (arith, s.row_lt);
  column_lt = ground (arith, s.column_lt);
}

length-put_text :
    (cs : List ℕ) (idx color : ℕ) (buf : List ℕ) → length (put_text cs idx color buf) ≡ length buf
unfolding put_text
length-put_text [] idx color buf = refl
length-put_text (c ∷ cs) idx color buf =
    length-put_text cs (idx + 1) color (set buf idx (vga_entry c color))
    ∙ length-set buf idx (vga_entry c color)

show_prompt-IsScreen : (t : Terminal) → IsAlmost t → IsScreen (show_prompt t)
unfolding show_prompt
show_prompt-IsScreen t a =
    let bright = record t { color = vga_entry_color 0 7 } in
    let s =
      keep_row-IsScreen bright
        (record { cells = a.cells; row_le = a.row_le; column_lt = a.column_lt }) in
    let kept = keep_row bright in
    record {
      cells =
          length-put_text pager_msg (kept.row * vga_width + kept.column) kept.color kept.buffer
          ∙ s.cells;
      row_lt = s.row_lt;
      column_lt = s.column_lt;
    }

answer_prompt-IsScreen : (t : Terminal) (key : ℕ) → IsScreen t → IsScreen (answer_prompt t key)
unfolding answer_prompt
answer_prompt-IsScreen t key s =
    let blank = fill_cells vga_width (t.row * vga_width) (vga_entry b' ' t.color) t.buffer in
    let cells =
      length-fill_cells vga_width (t.row * vga_width) (vga_entry b' ' t.color) t.buffer ∙ s.cells in
    if_all IsScreen (key == b'q' || key == b'Q')
      (record { cells = cells; row_lt = s.row_lt; column_lt = omega arith })
      (finish-IsScreen (record t { buffer = blank; column = 0; pager_lines = 0 })
        (record { cells = cells; row_le = omega (arith, s.row_lt); column_lt = omega arith }))

-- What a call leaves, if it does not wait.
unfoldable pub Leaves : Option (Terminal × Keyboard) → Type 0
Leaves none = Unit
Leaves (some (t, k)) = IsScreen t × IsRing k

answered-IsScreen :
    (t : Terminal) (typed : Option (ℕ × Keyboard))
    → IsAlmost t
    → ((key : ℕ) (k' : Keyboard) → typed ≡ some (key, k') → IsRing k')
    → Leaves
        (elim typed [ none ↦ none | some (key, k') ↦ some (answer_prompt (show_prompt t) key, k') ])
unfolding Leaves
answered-IsScreen t none a ring = tt
answered-IsScreen t (some (key, k')) a ring =
    (answer_prompt-IsScreen (show_prompt t) key (show_prompt-IsScreen t a), ring key k' refl)

put_newline-IsScreen :
    (t : Terminal) (k : Keyboard) → IsScreen t → IsRing k → Leaves (put_newline t k)
unfolding put_newline Leaves
put_newline-IsScreen t k s r =
    let below = record t { column = 0; row = (t.row + 1) % 2 ^ 32 } in
    let counted = record below { pager_lines = (t.pager_lines + 1) % 2 ^ 32 } in
    let almost : IsAlmost below = record {
      cells = s.cells;
      row_le = omega (arith, s.row_lt);
      column_lt = omega arith;
    } in
    let almost' : IsAlmost counted = record {
      cells = s.cells;
      row_le = almost.row_le;
      column_lt = omega arith;
    } in
    if_all Leaves (not t.pager_enabled) (finish-IsScreen below almost, r)
      (if_all Leaves (ltb_ℤ (signed32 counted.pager_lines) (pos (vga_height - 2)))
        (finish-IsScreen counted almost', r)
        (answered-IsScreen counted (keyboard_getchar k) almost'
          (λ key k' e. keyboard_getchar-IsRing k k' key r e)))

-- No character, whatever the pager and its keys do, moves the cursor off the screen, changes the size of
-- the buffer or breaks the ring of the keyboard.
pub terminal_putchar-IsScreen :
    (t : Terminal) (k : Keyboard) (c : ℕ) → IsScreen t → IsRing k → Leaves (terminal_putchar t k c)
unfolding terminal_putchar Leaves
terminal_putchar-IsScreen t k c s r =
    if_all Leaves (c == 10) (put_newline-IsScreen t k s r)
      (finish-IsScreen (put_plain t c) (put_plain-IsAlmost t c s), r)

then_all :
    (left : Option (Terminal × Keyboard)) (cs : List ℕ)
    → Leaves left
    → ((t : Terminal) (k : Keyboard) → IsScreen t → IsRing k → Leaves (put_all t k cs))
    → Leaves (elim left [ none ↦ none | some (t', k') ↦ put_all t' k' cs ])
unfolding Leaves
then_all none cs l rest = tt
then_all (some (t', k')) cs (s, r) rest = rest t' k' s r

pub put_all-IsScreen :
    (cs : List ℕ) (t : Terminal) (k : Keyboard) → IsScreen t → IsRing k → Leaves (put_all t k cs)
unfolding put_all Leaves
put_all-IsScreen [] t k s r = (s, r)
put_all-IsScreen (c ∷ cs) t k s r =
    then_all (terminal_putchar t k c) cs (terminal_putchar-IsScreen t k c s r)
      (λ t' k' s' r'. put_all-IsScreen cs t' k' s' r')
