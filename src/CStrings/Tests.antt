-- ===== src/CStrings/Tests.antt =====
-- The functions of src/string.c on short buffers.
use my_misu_os.Base.{ℕ, ◌≡◌, refl, ◌↔◌, List, [], ◌∷◌, pos, codes}
use my_misu_os.CStrings.{strlen, strcmp}
use my_misu_os.CStrings.Laws.{text, strcmp_iff}

-- "ab" in a buffer of eight bytes.
abbrev short : List ℕ
short = 97 ∷ 98 ∷ 0 ∷ 7 ∷ 7 ∷ 7 ∷ 7 ∷ 7 ∷ []

short_strlen : strlen short ≡ 2
unfolding strlen
short_strlen = refl

strcmp_iff_example : (strcmp short (codes "ab") ≡ pos 0) ↔ (text short ≡ text (codes "ab"))
strcmp_iff_example = strcmp_iff short (codes "ab")
