-- ===== src/Vga/Colors.antt =====
-- The colours of src/vga.h.
use my_misu_os.Base.{ℕ}

-- `enum vga_color`.
abbrev pub vga_black : ℕ
vga_black = 0

abbrev pub vga_blue : ℕ
vga_blue = 1

abbrev pub vga_green : ℕ
vga_green = 2

abbrev pub vga_cyan : ℕ
vga_cyan = 3

abbrev pub vga_red : ℕ
vga_red = 4

abbrev pub vga_magenta : ℕ
vga_magenta = 5

abbrev pub vga_brown : ℕ
vga_brown = 6

abbrev pub vga_light_grey : ℕ
vga_light_grey = 7

abbrev pub vga_dark_grey : ℕ
vga_dark_grey = 8

abbrev pub vga_light_blue : ℕ
vga_light_blue = 9

abbrev pub vga_light_green : ℕ
vga_light_green = 10

abbrev pub vga_light_cyan : ℕ
vga_light_cyan = 11

abbrev pub vga_light_red : ℕ
vga_light_red = 12

abbrev pub vga_light_magenta : ℕ
vga_light_magenta = 13

abbrev pub vga_yellow : ℕ
vga_yellow = 14

abbrev pub vga_white : ℕ
vga_white = 15
