-- ===== src/Syscall/Streams.antt =====
-- `sys_read` and `sys_write` of src/syscall.c keep the system sound.
use my_misu_os.Base.{
  ℕ, zero, suc, ◌+◌, ◌≡◌, refl, Option, none, some, List, ◌==◌, if◌then◌else◌, set, take, ℤ, pos,
  negsuc, ◌+ℤ◌, ltb_ℤ, eq_ℤ, signed32, if_all,
}
use my_misu_os.Fs.Boot.{read_fd, write_fd, fs_call}
use my_misu_os.Keyboard.{Keyboard, keyboard_getchar}
use my_misu_os.Keyboard.Ring.{IsRing, keyboard_getchar-IsRing}
use my_misu_os.Vga.{
  vga_entry_color, vga_red, vga_black, vga_light_grey, Terminal, put_all, terminal_setcolor,
}
use my_misu_os.Vga.Screen.{IsScreen, Leaves, put_all-IsScreen}
use my_misu_os.Syscall.{System, answer, read_chars, write_chars, sys_read, sys_write}
use my_misu_os.Syscall.Sound.{IsSound, Returns, with_fs}

-- The keyboard after the loop of `sys_read`, if it does not wait.
Reads : Option (ℕ × List ℕ × Keyboard) → Type 0
Reads none = Unit
Reads (some (n, buf, k)) = IsRing k

read_first :
    (typed : Option (ℕ × Keyboard)) (left i : ℕ) (buf : List ℕ)
    → ((c : ℕ) (k' : Keyboard) → typed ≡ some (c, k') → IsRing k')
    → ((buf' : List ℕ) (k' : Keyboard) → IsRing k' → Reads (read_chars left (suc i) buf' k'))
    → Reads (elim typed [
      | none ↦ none
      | some (c, k') ↦
          let rest = read_chars left (suc i) (set buf i c) k' in
          if c == 10 then some (i + 1, set buf i c, k') else rest
    ])
unfolding Reads
read_first none left i buf ring rest = tt
read_first (some (c, k')) left i buf ring rest =
    if_all Reads (c == 10) (ring c k' refl) (rest (set buf i c) k' (ring c k' refl))

read_chars-Reads :
    (left i : ℕ) (buf : List ℕ) (k : Keyboard) → IsRing k → Reads (read_chars left i buf k)
unfolding Reads read_chars
read_chars-Reads zero i buf k r = r
read_chars-Reads (suc left) i buf k r =
    read_first (keyboard_getchar k) left i buf (λ c k' e. keyboard_getchar-IsRing k k' c r e)
      (λ buf' k' r'. read_chars-Reads left (suc i) buf' k' r')

after_read :
    (s : System) (got : Option (ℕ × List ℕ × Keyboard))
    → IsSound s
    → Reads got
    → Returns (elim got [
      | none ↦ none
      | some (n, buf', k) ↦
          some (record (answer (record s { keyboard = k }) (signed32 n)) { buffer = some buf' })
    ])
unfolding Reads Returns
after_read s none v r = tt
after_read s (some (n, buf', k)) v r = record {
  fs = v.fs;
  kernel = v.kernel;
  keyboard = r;
  terminal = v.terminal;
}

pub sys_read-IsSound :
    (s : System) (fd : ℤ) (buf : Option (List ℕ)) (count : ℕ)
    → IsSound s
    → Returns (sys_read s fd buf count)
unfolding sys_read Returns fs_call
sys_read-IsSound s fd none count v = v
sys_read-IsSound s fd (some buf) count v =
    if_all Returns (eq_ℤ fd (pos 0))
      (after_read s (read_chars count 0 buf s.keyboard) v
        (read_chars-Reads count 0 buf s.keyboard v.keyboard))
      (if_all Returns (ltb_ℤ fd (pos 3)) v (with_fs (read_fd (fd +ℤ negsuc 2) (some buf) count) v))

after_write :
    (s : System) (left : Option (Terminal × Keyboard)) (after : Terminal → Terminal) (count : ℕ)
    → IsSound s
    → Leaves left
    → ((t : Terminal) → IsScreen t → IsScreen (after t))
    → Returns (elim left [
      | none ↦ none
      | some (t', k) ↦
          some (answer (record s { terminal = after t'; keyboard = k }) (signed32 count))
    ])
unfolding Leaves Returns
after_write s none after count v l keeps = tt
after_write s (some (t', k)) after count v (on, r) keeps = record {
  fs = v.fs;
  kernel = v.kernel;
  keyboard = r;
  terminal = keeps t' on;
}

pub setcolor-IsScreen :
    (t : Terminal) (color : ℕ) → IsScreen t → IsScreen (terminal_setcolor t color)
unfolding terminal_setcolor
setcolor-IsScreen t color s = record { cells = s.cells; row_lt = s.row_lt; column_lt = s.column_lt }

write_chars-IsSound :
    (s : System) (t : Terminal) (bytes : List ℕ) (after : Terminal → Terminal) (count : ℕ)
    → IsSound s
    → IsScreen t
    → ((t' : Terminal) → IsScreen t' → IsScreen (after t'))
    → Returns (write_chars s t bytes after count)
unfolding write_chars
write_chars-IsSound s t bytes after count v on keeps =
    after_write s (put_all t s.keyboard bytes) after count v
      (put_all-IsScreen bytes t s.keyboard on v.keyboard) keeps

pub sys_write-IsSound :
    (s : System) (fd : ℤ) (buf : Option (List ℕ)) (count : ℕ)
    → IsSound s
    → Returns (sys_write s fd buf count)
unfolding sys_write Returns fs_call
sys_write-IsSound s fd none count v = v
sys_write-IsSound s fd (some buf) count v =
    let red = vga_entry_color vga_red vga_black in
    let grey = vga_entry_color vga_light_grey vga_black in
    if_all Returns (eq_ℤ fd (pos 1))
      (write_chars-IsSound s s.terminal (take count buf) (λ t. t) count v v.terminal (λ t on. on))
      (if_all Returns (eq_ℤ fd (pos 2))
        (write_chars-IsSound s (terminal_setcolor s.terminal red) (take count buf)
          (λ t. terminal_setcolor t grey) count v (setcolor-IsScreen s.terminal red v.terminal)
          (λ t. setcolor-IsScreen t grey))
        (if_all Returns (ltb_ℤ fd (pos 3)) v
          (with_fs (write_fd (fd +ℤ negsuc 2) (some buf) count) v)))
