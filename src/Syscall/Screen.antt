-- ===== src/Syscall/Screen.antt =====
-- What `sys_write` of src/syscall.c shows on the screen.
use my_misu_os.Base.{ℕ, ◌≡◌, refl, false, some, List, take, pos, signed32}
use my_misu_os.Vga.{
  Terminal, put_all, terminal_setcolor, vga_entry_color, vga_red, vga_black, vga_light_grey,
}
use my_misu_os.Vga.Screen.{IsScreen}
use my_misu_os.Vga.Paper.{Paper, Shows, Prints, print_all}
use my_misu_os.Vga.Printing.{put_all-Prints}
use my_misu_os.Syscall.Streams.{setcolor-IsScreen}
use my_misu_os.Syscall.{System, answer, write_chars, sys_write}

-- The colour that `sys_write` leaves behind standard error.
unfoldable pub printed_red : Paper → List ℕ → Paper
printed_red p bytes =
    record (print_all (record p { tint = vga_entry_color vga_red vga_black }) bytes) {
      tint = vga_entry_color vga_light_grey vga_black;
    }

setcolor-Shows :
    (t : Terminal) (p : Paper) (color : ℕ)
    → Shows t p
    → Shows (terminal_setcolor t color) (record p { tint = color })
unfolding terminal_setcolor
setcolor-Shows t p color h = record {
  cells = h.cells;
  line_eq = h.line_eq;
  place_eq = h.place_eq;
  tint_eq = refl;
}

write_chars-some :
    (s : System) (t : Terminal) (bytes : List ℕ) (after : Terminal → Terminal) (count : ℕ)
    (t' : Terminal)
    → put_all t s.keyboard bytes ≡ some (t', s.keyboard)
    → write_chars s t bytes after count
      ≡ some (answer (record s { terminal = after t' }) (signed32 count))
unfolding write_chars
write_chars-some s t bytes after count t' ran = rw (write_chars, ran) refl

-- With the pager off, a call that writes on standard output prints the bytes where the cursor stands, a
-- call that writes on standard error prints them in red and leaves the colour light grey; both return
-- the count, wait for no key and change nothing but the terminal.
pub sys_write-Shows :
    (s : System) (p : Paper) (buf : List ℕ) (count : ℕ)
    → IsScreen s.terminal
    → Shows s.terminal p
    → s.terminal.pager_enabled ≡ false
    → ((t : Terminal) × (sys_write s (pos 1) (some buf) count
          ≡ some (answer (record s { terminal = t }) (signed32 count)))
        × Shows t (print_all p (take count buf)))
      × (t : Terminal) × (sys_write s (pos 2) (some buf) count
          ≡ some (answer (record s { terminal = t }) (signed32 count)))
      × Shows t (printed_red p (take count buf))
unfolding sys_write printed_red Prints terminal_setcolor
sys_write-Shows s p buf count on h off =
    let bytes = take count buf in
    let red = vga_entry_color vga_red vga_black in
    let (t1, ran1, on1, h1, off1) = put_all-Prints s.terminal s.keyboard p bytes on h off in
    let (t2, ran2, on2, h2, off2) =
      put_all-Prints (terminal_setcolor s.terminal red) s.keyboard (record p { tint = red }) bytes
        (setcolor-IsScreen s.terminal red on) (setcolor-Shows s.terminal p red h) off in
    (
      (t1, write_chars-some s s.terminal bytes (λ t. t) count t1 ran1, h1),
      terminal_setcolor t2 (vga_entry_color vga_light_grey vga_black),
      write_chars-some s (terminal_setcolor s.terminal red) bytes
          (λ t. terminal_setcolor t (vga_entry_color vga_light_grey vga_black)) count t2 ran2,
      setcolor-Shows t2 (print_all (record p { tint = red }) bytes)
          (vga_entry_color vga_light_grey vga_black) h2,
    )
