-- ===== src/Vga/Cells.antt =====
-- What the loops over the cells of the screen in src/vga.c leave in the buffer.
use my_misu_os.Base.{
  ℕ, zero, suc, ◌+◌, ◌-◌, ◌*◌, ◌≤◌, ◌<◌, ◌≡◌, refl, ap, ◌∙◌, ◌⊎◌, inl, inr, List, arith, ltb, ◌==◌,
  if◌then◌else◌, ltb→lt, Bool-cases, length, get_or, set, length-set, get_or-set_self,
  get_or-set_ne,
}
use native.Mathlib.Decide.{ℕ_discrete}
use my_misu_os.Vga.{
  vga_width, vga_height, fill_cells, fill_lines, copy_lines, Terminal, terminal_scroll, vga_entry,
}
use my_misu_os.Vga.Copies.{length-copy_lines, copy_lines-inside}

pub length-fill_cells : (n idx v : ℕ) (buf : List ℕ) → length (fill_cells n idx v buf) ≡ length buf
unfolding fill_cells
length-fill_cells zero idx v buf = refl
length-fill_cells (suc n) idx v buf =
    length-fill_cells n (idx + 1) v (set buf idx v) ∙ length-set buf idx v

pub fill_cells-outside :
    (n idx v : ℕ) (buf : List ℕ) (j : ℕ)
    → (j < idx) ⊎ (idx + n ≤ j)
    → get_or (fill_cells n idx v buf) j 0 ≡ get_or buf j 0
unfolding fill_cells
fill_cells-outside zero idx v buf j out = refl
fill_cells-outside (suc n) idx v buf j out =
    fill_cells-outside n (idx + 1) v (set buf idx v) j (ground arith)
    ∙ get_or-set_ne buf v 0 (λ e. ground arith)

pub fill_cells-inside :
    (n idx v : ℕ) (buf : List ℕ) (j : ℕ)
    → idx + n ≤ length buf
    → idx ≤ j
    → j < idx + n
    → get_or (fill_cells n idx v buf) j 0 ≡ v
unfolding fill_cells
fill_cells-inside zero idx v buf j fits lo hi = absurd (omega arith)
fill_cells-inside (suc n) idx v buf j fits lo hi = elim (ℕ_discrete idx j) [
  | yes e ↦
      fill_cells-outside n (idx + 1) v (set buf idx v) j (inl (omega arith))
      ∙ rw⁻¹ e (get_or-set_self buf idx v 0 (omega arith))
  | no ne ↦
      fill_cells-inside n (idx + 1) v (set buf idx v) j (omega (arith, length-set buf idx v))
        (omega arith) (omega arith)
]

pub length-fill_lines : (n y v : ℕ) (buf : List ℕ) → length (fill_lines n y v buf) ≡ length buf
unfolding fill_lines
length-fill_lines zero y v buf = refl
length-fill_lines (suc n) y v buf =
    length-fill_lines n (y + 1) v (fill_cells vga_width (y * vga_width) v buf)
    ∙ length-fill_cells vga_width (y * vga_width) v buf

fill_lines-outside :
    (n y v : ℕ) (buf : List ℕ) (j : ℕ)
    → j < y * vga_width
    → get_or (fill_lines n y v buf) j 0 ≡ get_or buf j 0
unfolding fill_lines
fill_lines-outside zero y v buf j lt = refl
fill_lines-outside (suc n) y v buf j lt =
    fill_lines-outside n (y + 1) v (fill_cells vga_width (y * vga_width) v buf) j (omega arith)
    ∙ fill_cells-outside vga_width (y * vga_width) v buf j (inl lt)

pub fill_lines-inside :
    (n y v : ℕ) (buf : List ℕ) (j : ℕ)
    → (y + n) * vga_width ≤ length buf
    → y * vga_width ≤ j
    → j < (y + n) * vga_width
    → get_or (fill_lines n y v buf) j 0 ≡ v
unfolding fill_lines
fill_lines-inside zero y v buf j fits lo hi = absurd (omega arith)
fill_lines-inside (suc n) y v buf j fits lo hi =
    let filled = fill_cells vga_width (y * vga_width) v buf in
    elim (Bool-cases (ltb j ((y + 1) * vga_width))) [
      | inl first ↦
          let lt = ltb→lt j ((y + 1) * vga_width) first in
          fill_lines-outside n (y + 1) v filled j lt
          ∙ fill_cells-inside vga_width (y * vga_width) v buf j (omega arith) lo (omega arith)
      | inr later ↦
          fill_lines-inside n (y + 1) v filled j
            (omega (arith, length-fill_cells vga_width (y * vga_width) v buf)) (ground arith)
            (omega arith)
    ]

-- The cell in line `y` and column `x`.
abbrev pub cell_at : Terminal → ℕ → ℕ → ℕ
cell_at t y x = get_or t.buffer (y * vga_width + x) 0

-- `terminal_scroll` moves every line up by one and blanks the last.
pub scroll-cell :
    (t : Terminal) (y x : ℕ)
    → length t.buffer ≡ vga_height * vga_width
    → y < vga_height
    → x < vga_width
    → cell_at (terminal_scroll t) y x
      ≡ (if y + 1 == vga_height then vga_entry b' ' t.color else cell_at t (y + 1) x)
unfolding terminal_scroll
scroll-cell t y x len lt lt' =
    let copied = copy_lines (vga_height - 1) 1 t.buffer in
    let len' : length copied ≡ vga_height * vga_width =
      length-copy_lines (vga_height - 1) 1 t.buffer ∙ len in
    let blank = vga_entry b' ' t.color in
    elim (Bool-cases (y + 1 == vga_height)) [
      | inl last ↦
          let e : y ≡ 24 = ground arith in
          rw last (
            fill_cells-inside vga_width ((vga_height - 1) * vga_width) blank copied
              (y * vga_width + x) (omega arith) (omega arith) (omega arith))
      | inr upper ↦
          let below : y < 24 = ground arith in
          let index : y * vga_width + x + vga_width ≡ (y + 1) * vga_width + x = omega arith in
          rw upper (
            fill_cells-outside vga_width ((vga_height - 1) * vga_width) blank copied
              (y * vga_width + x) (inl (omega arith))
            ∙ copy_lines-inside (vga_height - 1) 1 t.buffer (y * vga_width + x) (omega arith)
                (omega (arith, len)) (omega arith) (omega arith)
            ∙ ap (λ n. get_or t.buffer n 0) index)
    ]
