-- ===== src/Vga.antt =====
-- src/vga.c and src/vga.h: the text screen of 25 lines of 80 cells, with its pager.
pub mod Copies
pub mod Cells
pub mod Screen
pub mod Paper
pub mod Feed
pub mod Plain
pub mod Printing
pub mod Tests
mod Colors
pub use Colors.*
use my_misu_os.Base.{
  ℕ, zero, suc, ◌+◌, ◌-◌, ◌*◌, ◌/◌, ◌%◌, ◌^◌, ◌≤◌, ◌<◌, bit_and, bit_or, bit_xor, min, ◌≡◌, refl,
  sym, ap, ap₂, subst, ◌∙◌, ◌≢◌, ◌↔◌, ◌⊎◌, inl, inr, Bool, true, false, not, ◌&&◌, ◌||◌, Option,
  none, some, List, [], ◌∷◌, ◌++◌, map, arith, ltb, leb, ◌==◌, if◌then◌else◌, ltb→lt, lt→ltb,
  leb→le, ==_iff, ==_self, Bool-cases, Option-cases, all_below, all_below_sound, length, get_or,
  set, take, drop, replicate, at_offset, length-set, get_or-set, set-set, get_or_default,
  length-append, length-take, length-drop, length-replicate, get_or-replicate, take_of_le,
  length-at_offset, drop-at_offset, get_or-at_offset_lt, ℤ, pos, negsuc, pos_part, neg_part, neg,
  sub_ℕ, ◌+ℤ◌, is_neg, ltb_ℤ, eq_ℤ, eq_ℤ_iff, signed32, pattern32, find_from, count_if, IsFirst,
  find_from-some, find_from-none, codes, set_default, get_or-set_all, get_or-replicate_all,
  get_or-set_self, get_or-set_ne, some-eq, set_same, if_all,
}
use my_misu_os.CStrings.Laws.{text}
use my_misu_os.Keyboard.{Keyboard, keyboard_getchar}

abbrev pub vga_width : ℕ
vga_width = 80

abbrev pub vga_height : ℕ
vga_height = 25

-- The result is a `uint8_t`.
unfoldable pub vga_entry_color : ℕ → ℕ → ℕ
vga_entry_color fg bg = bit_or fg (bg * 16) % 2 ^ 8

unfoldable pub vga_entry : ℕ → ℕ → ℕ
vga_entry c color = bit_or c (color * 2 ^ 8)

-- The static variables of vga.c, `terminal_buffer` with the cells that it points to, and the position
-- that was last sent to the hardware's cursor.
pub record Terminal : Type 0 where
  pub row : ℕ
  pub column : ℕ
  pub color : ℕ
  pub buffer : List ℕ
  pub pager_enabled : Bool
  pub pager_lines : ℕ
  pub cursor : ℕ

-- `terminal_buffer[idx + i] = value` for `n` values of `i` from 0 on.
unfoldable pub fill_cells : ℕ → ℕ → ℕ → List ℕ → List ℕ
fill_cells zero idx value buf = buf
fill_cells (suc n) idx value buf = fill_cells n (idx + 1) value (set buf idx value)

-- The double loop over `n` lines from `y` on.
unfoldable pub fill_lines : ℕ → ℕ → ℕ → List ℕ → List ℕ
fill_lines zero y value buf = buf
fill_lines (suc n) y value buf =
    fill_lines n (y + 1) value (fill_cells vga_width (y * vga_width) value buf)

-- `terminal_update_cursor`: the two bytes of the position go to the ports.
unfoldable pub terminal_update_cursor : Terminal → ℕ → ℕ → Terminal
terminal_update_cursor t x y = record t { cursor = (y * vga_width + x) % 2 ^ 16 }

unfoldable pub terminal_initialize : Terminal → Terminal
terminal_initialize t =
    let color = vga_entry_color vga_light_grey vga_black in
    terminal_update_cursor
      (record t {
        row = 0;
        column = 0;
        color = color;
        buffer = fill_lines vga_height 0 (vga_entry b' ' color) t.buffer;
      })
      0 0

unfoldable pub terminal_clear : Terminal → Terminal
terminal_clear t =
    terminal_update_cursor
      (record t {
        row = 0;
        column = 0;
        pager_lines = 0;
        buffer = fill_lines vga_height 0 (vga_entry b' ' t.color) t.buffer;
      })
      0 0

unfoldable pub terminal_setcolor : Terminal → ℕ → Terminal
terminal_setcolor t color = record t { color = color }

-- The copy of `n` cells from `source` on to `dest` on.
unfoldable pub copy_cells : ℕ → ℕ → ℕ → List ℕ → List ℕ
copy_cells zero dest source buf = buf
copy_cells (suc n) dest source buf =
    copy_cells n (dest + 1) (source + 1) (set buf dest (get_or buf source 0))

-- The loop over `n` lines from `y` on.
unfoldable pub copy_lines : ℕ → ℕ → List ℕ → List ℕ
copy_lines zero y buf = buf
copy_lines (suc n) y buf =
    copy_lines n (y + 1) (copy_cells vga_width ((y - 1) * vga_width) (y * vga_width) buf)

unfoldable pub terminal_scroll : Terminal → Terminal
terminal_scroll t = record t {
  buffer =
      fill_cells vga_width ((vga_height - 1) * vga_width) (vga_entry b' ' t.color)
        (copy_lines (vga_height - 1) 1 t.buffer);
}

-- `if (terminal_row >= VGA_HEIGHT) { terminal_scroll(); terminal_row = VGA_HEIGHT - 1; }`
unfoldable pub keep_row : Terminal → Terminal
keep_row t = if leb vga_height t.row then record (terminal_scroll t) { row = vga_height - 1 } else t

-- The end of `terminal_putchar`.
unfoldable pub finish : Terminal → Terminal
finish t = terminal_update_cursor (keep_row t) (keep_row t).column (keep_row t).row

-- `if (terminal_column >= VGA_WIDTH) { terminal_column = 0; terminal_row++; }`
unfoldable pub wrap_column : Terminal → Terminal
wrap_column t =
    if leb vga_width t.column then record t { column = 0; row = (t.row + 1) % 2 ^ 32 } else t

abbrev pub pager_msg : List ℕ
pager_msg = codes " -- Press any key for more, Q to stop -- "

-- `for (int i = 0; msg[i]; i++) terminal_buffer[idx + i] = vga_entry(msg[i], color);`
unfoldable pub put_text : List ℕ → ℕ → ℕ → List ℕ → List ℕ
put_text [] idx color buf = buf
put_text (c ∷ cs) idx color buf = put_text cs (idx + 1) color (set buf idx (vga_entry c color))

-- The prompt of the pager, in its own colour; the saved one is restored behind it.
unfoldable pub show_prompt : Terminal → Terminal
show_prompt t =
    let s = keep_row (record t { color = vga_entry_color vga_black vga_light_grey }) in
    record s {
      buffer = put_text pager_msg (s.row * vga_width + s.column) s.color s.buffer;
      color = t.color;
    }

-- From the key that answers the prompt on.
unfoldable pub answer_prompt : Terminal → ℕ → Terminal
answer_prompt t key =
    let cleared = record t {
      buffer = fill_cells vga_width (t.row * vga_width) (vga_entry b' ' t.color) t.buffer;
      column = 0;
      pager_lines = 0;
    } in
    if key == b'q' || key == b'Q' then record cleared { pager_enabled = false } else finish cleared

-- `terminal_putchar('\n')`; `none` while the pager waits for a key.
unfoldable pub put_newline : Terminal → Keyboard → Option (Terminal × Keyboard)
put_newline t k =
    let below = record t { column = 0; row = (t.row + 1) % 2 ^ 32 } in
    let counted = record below { pager_lines = (t.pager_lines + 1) % 2 ^ 32 } in
    if not t.pager_enabled
    then some (finish below, k)
    else if ltb_ℤ (signed32 counted.pager_lines) (pos (vga_height - 2))
    then some (finish counted, k)
    else elim (keyboard_getchar k) [
      | none ↦ none
      | some (key, k') ↦ some (answer_prompt (show_prompt counted) key, k')
    ]

-- The other characters, up to the end of `terminal_putchar`.
unfoldable pub put_plain : Terminal → ℕ → Terminal
put_plain t c =
    let idx = t.row * vga_width + t.column in
    if c == 13
    then record t { column = 0 }
    else if c == 9
    then wrap_column (record t { column = (t.column + 4) / 4 * 4 })
    else if c == 8
    then (if t.column == 0 then t else record t {
      column = t.column - 1;
      buffer = set t.buffer (idx - 1) (vga_entry b' ' t.color);
    })
    else wrap_column
        (record t { buffer = set t.buffer idx (vga_entry c t.color); column = t.column + 1 })

unfoldable pub terminal_putchar : Terminal → Keyboard → ℕ → Option (Terminal × Keyboard)
terminal_putchar t k c = if c == 10 then put_newline t k else some (finish (put_plain t c), k)

unfoldable pub terminal_putchar_color : Terminal → Keyboard → ℕ → ℕ → Option (Terminal × Keyboard)
terminal_putchar_color t k c color = elim (terminal_putchar (record t { color = color }) k c) [
  | none ↦ none
  | some (t', k') ↦ some (record t' { color = t.color }, k')
]

-- The characters one after another: the loop of `terminal_write` and of `terminal_writestring`.
unfoldable pub put_all : Terminal → Keyboard → List ℕ → Option (Terminal × Keyboard)
put_all t k [] = some (t, k)
put_all t k (c ∷ cs) = elim (terminal_putchar t k c) [
  | none ↦ none
  | some (t', k') ↦ put_all t' k' cs
]

unfoldable pub terminal_write : Terminal → Keyboard → List ℕ → ℕ → Option (Terminal × Keyboard)
terminal_write t k bytes size = put_all t k (take size bytes)

unfoldable pub terminal_writestring : Terminal → Keyboard → List ℕ → Option (Terminal × Keyboard)
terminal_writestring t k str = put_all t k (text str)

unfoldable pub terminal_get_row : Terminal → ℕ
terminal_get_row t = t.row

unfoldable pub terminal_enable_pager : Terminal → Terminal
terminal_enable_pager t = record t { pager_enabled = true; pager_lines = 0 }

unfoldable pub terminal_disable_pager : Terminal → Terminal
terminal_disable_pager t = record t { pager_enabled = false; pager_lines = 0 }
