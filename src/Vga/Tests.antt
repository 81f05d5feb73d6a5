-- ===== src/Vga/Tests.antt =====
-- The screen of src/vga.c after it has been initialised, with its pager off and on.
use my_misu_os.Base.{ℕ, ◌≡◌, refl, true, false, some, arith, replicate, length-replicate, codes}
use my_misu_os.Keyboard.{Keyboard}
use my_misu_os.Vga.{Terminal, terminal_initialize, terminal_putchar, put_all}
use my_misu_os.Vga.Screen.{Leaves, terminal_putchar-IsScreen}
use my_misu_os.Vga.Paper.{Shows, print_all}
use my_misu_os.Vga.Printing.{blank, terminal_initialize-put_all}

abbrev pub no_keys : Keyboard
no_keys = record {
  kb_buffer = replicate 256 0;
  kb_read = 0;
  kb_write = 0;
  shift_pressed = false;
  caps_lock = false;
  extended = false;
}

-- At boot the cells hold whatever the firmware left.
abbrev pub at_boot : Terminal
at_boot = record {
  row = 0;
  column = 0;
  color = 0;
  buffer = replicate 2000 0x3F3F;
  pager_enabled = false;
  pager_lines = 0;
  cursor = 0;
}

terminal_initialize-put_all_example :
    (t' : Terminal) × (put_all (terminal_initialize at_boot) no_keys (codes "MyMisu\n")
      ≡ some (t', no_keys))
    × Shows t' (print_all blank (codes "MyMisu\n"))
terminal_initialize-put_all_example =
    terminal_initialize-put_all at_boot no_keys (codes "MyMisu\n")
      (length-replicate {A = ℕ} 2000 0x3F3F) refl

-- The last cell of the screen.
abbrev at_corner : Terminal
at_corner = record at_boot { row = 24; column = 79; pager_enabled = true; pager_lines = 30 }

terminal_putchar-IsScreen_example : Leaves (terminal_putchar at_corner no_keys b'x')
terminal_putchar-IsScreen_example =
    terminal_putchar-IsScreen at_corner no_keys b'x'
      (record {
        cells = length-replicate {A = ℕ} 2000 0x3F3F;
        row_lt = omega arith;
        column_lt = omega arith;
      })
      (record { buffer_len = refl; read_lt = omega arith; write_lt = omega arith })
