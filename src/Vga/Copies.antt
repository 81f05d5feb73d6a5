-- ===== src/Vga/Copies.antt =====
-- What the copies of the lines of the screen in src/vga.c leave in the buffer.
use my_misu_os.Base.{
  ℕ, zero, suc, ◌+◌, ◌-◌, ◌*◌, ◌≤◌, ◌<◌, ◌≡◌, refl, ◌∙◌, ◌⊎◌, inl, inr, List, arith, ltb, ltb→lt,
  Bool-cases, length, get_or, set, length-set, get_or-set_self, get_or-set_ne,
}
use my_misu_os.Vga.{vga_width, copy_cells, copy_lines}

length-copy_cells :
    (n dest source : ℕ) (buf : List ℕ) → length (copy_cells n dest source buf) ≡ length buf
unfolding copy_cells
length-copy_cells zero dest source buf = refl
length-copy_cells (suc n) dest source buf =
    length-copy_cells n (dest + 1) (source + 1) (set buf dest (get_or buf source 0))
    ∙ length-set buf dest (get_or buf source 0)

pub copy_cells-outside :
    (n dest source : ℕ) (buf : List ℕ) (j : ℕ)
    → (j < dest) ⊎ (dest + n ≤ j)
    → get_or (copy_cells n dest source buf) j 0 ≡ get_or buf j 0
unfolding copy_cells
copy_cells-outside zero dest source buf j out = refl
copy_cells-outside (suc n) dest source buf j out =
    copy_cells-outside n (dest + 1) (source + 1) (set buf dest (get_or buf source 0)) j
      (ground arith)
    ∙ get_or-set_ne buf (get_or buf source 0) 0 (λ e. ground arith)

-- The source lies behind the cells that are written.
copy_cells-inside :
    (n dest source : ℕ) (buf : List ℕ) (i j k : ℕ)
    → dest + n ≤ source
    → dest + n ≤ length buf
    → i < n
    → j ≡ dest + i
    → k ≡ source + i
    → get_or (copy_cells n dest source buf) j 0 ≡ get_or buf k 0
unfolding copy_cells
copy_cells-inside zero dest source buf i j k apart fits lt ej ek = absurd (omega arith)
copy_cells-inside (suc n) dest source buf zero j k apart fits lt ej ek =
    let v = get_or buf source 0 in
    let at : j ≡ dest = omega arith in
    let from : k ≡ source = omega arith in
    copy_cells-outside n (dest + 1) (source + 1) (set buf dest v) j (inl (omega arith))
    ∙ rw (at, from) (get_or-set_self buf dest v 0 (omega arith))
copy_cells-inside (suc n) dest source buf (suc i) j k apart fits lt ej ek =
    let v = get_or buf source 0 in
    copy_cells-inside n (dest + 1) (source + 1) (set buf dest v) i j k (omega arith)
      (omega (arith, length-set buf dest v)) (omega arith) (omega arith) (omega arith)
    ∙ get_or-set_ne buf v 0 (λ e. absurd (omega arith))

pub length-copy_lines : (n y : ℕ) (buf : List ℕ) → length (copy_lines n y buf) ≡ length buf
unfolding copy_lines
length-copy_lines zero y buf = refl
length-copy_lines (suc n) y buf =
    length-copy_lines n (y + 1) (copy_cells vga_width ((y - 1) * vga_width) (y * vga_width) buf)
    ∙ length-copy_cells vga_width ((y - 1) * vga_width) (y * vga_width) buf

pub copy_lines-outside :
    (n y : ℕ) (buf : List ℕ) (j : ℕ)
    → 1 ≤ y
    → (j < (y - 1) * vga_width) ⊎ ((y - 1 + n) * vga_width ≤ j)
    → get_or (copy_lines n y buf) j 0 ≡ get_or buf j 0
unfolding copy_lines
copy_lines-outside zero y buf j le out = refl
copy_lines-outside (suc n) y buf j le out =
    copy_lines-outside n (y + 1) (copy_cells vga_width ((y - 1) * vga_width) (y * vga_width) buf) j
      (omega arith) (ground arith)
    ∙ copy_cells-outside vga_width ((y - 1) * vga_width) (y * vga_width) buf j (ground arith)

pub copy_lines-inside :
    (n y : ℕ) (buf : List ℕ) (j : ℕ)
    → 1 ≤ y
    → (y + n) * vga_width ≤ length buf
    → (y - 1) * vga_width ≤ j
    → j < (y - 1 + n) * vga_width
    → get_or (copy_lines n y buf) j 0 ≡ get_or buf (j + vga_width) 0
unfolding copy_lines
copy_lines-inside zero y buf j le fits lo hi = absurd (omega arith)
copy_lines-inside (suc n) y buf j le fits lo hi =
    let copied = copy_cells vga_width ((y - 1) * vga_width) (y * vga_width) buf in
    let len = length-copy_cells vga_width ((y - 1) * vga_width) (y * vga_width) buf in
    elim (Bool-cases (ltb j (y * vga_width))) [
      | inl first ↦
          let lt = ltb→lt j (y * vga_width) first in
          copy_lines-outside n (y + 1) copied j (omega arith) (inl (omega arith))
          ∙ copy_cells-inside vga_width ((y - 1) * vga_width) (y * vga_width) buf
              (j - (y - 1) * vga_width) j (j + vga_width) (omega arith) (omega arith) (omega arith)
              (omega arith) (omega arith)
      | inr later ↦
          let ge : y * vga_width ≤ j = ground arith in
          copy_lines-inside n (y + 1) copied j (omega arith) (omega (arith, len)) (omega arith)
            (omega arith)
          ∙ copy_cells-outside vga_width ((y - 1) * vga_width) (y * vga_width) buf (j + vga_width)
              (inr (omega arith))
    ]
