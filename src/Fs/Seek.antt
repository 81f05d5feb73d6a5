-- ===== src/Fs/Seek.antt =====
-- `fs_lseek` of src/fs.c against exact integers.
use my_misu_os.Base.{
  ℕ, ◌-◌, ◌^◌, ◌≤◌, ◌<◌, ◌≡◌, refl, sym, ap, ◌∙◌, ◌⊎◌, inl, inr, true, some, arith, leb,
  if◌then◌else◌, ℤ, pos, negsuc, pos_part, neg_part, neg, ◌+ℤ◌, is_neg, signed32, pattern32,
}
use my_misu_os.Errno.{einval}
use my_misu_os.Fs.{fs_max_data, fs_max_fds, Fs, node, fd_entry, put_fd}
use my_misu_os.Fs.Descriptors.{bad_fd, fd_node, seek_target, seek_to, fs_lseek}
use my_misu_os.Fs.Sizes.{IsSized}

-- The position from which an offset counts: the start, the current offset, or the end.
pub data Whence : Type 0 where
  seek_set seek_cur seek_end : Whence

unfoldable pub whence_code : Whence → ℤ
whence_code seek_set = pos 0
whence_code seek_cur = pos 1
whence_code seek_end = pos 2

unfoldable pub base_of : Fs → ℕ → Whence → ℕ
base_of s i seek_set = 0
base_of s i seek_cur = (fd_entry s i).offset
base_of s i seek_end = (node s (fd_node s i)).size

-- A position is accepted if it lies within the room of a file.
unfoldable pub seek_answer : Fs → ℕ → ℤ → ℤ × Fs
seek_answer s i (negsuc _) = (neg einval, s)
seek_answer s i (pos off) =
    if leb off (fs_max_data - 1)
    then (pos off, put_fd s i (record (fd_entry s i) { offset = off }))
    else (neg einval, s)

-- The 32-bit sum of a position and an `int32_t`, read as an `int32_t`: exact, or negative.
wrapped_sum :
    (b : ℕ) (offset : ℤ)
    → b ≤ fs_max_data - 1
    → pos_part offset < 2 ^ 31
    → neg_part offset ≤ 2 ^ 31
    → (signed32 (pattern32 (signed32 b +ℤ offset)) ≡ pos b +ℤ offset)
      ⊎ ((is_neg (signed32 (pattern32 (signed32 b +ℤ offset))) ≡ true)
          × (2 ^ 31 ≤ pos_part (pos b +ℤ offset)))
wrapped_sum b (pos n) h k l = ground arith
wrapped_sum b (negsuc n) h k l = ground arith

seek_to-answer : (s : Fs) (i : ℕ) (z : ℤ) → seek_to s i z ≡ seek_answer s i z
unfolding seek_to seek_answer
seek_to-answer s i (pos off) = ground arith
seek_to-answer s i (negsuc _) = refl

answer-neg : (s : Fs) (i : ℕ) (z : ℤ) → is_neg z ≡ true → seek_answer s i z ≡ (neg einval, s)
unfolding seek_answer
answer-neg s i (pos n) h = ground arith
answer-neg s i (negsuc n) h = refl

answer-far : (s : Fs) (i : ℕ) (z : ℤ) → 2 ^ 31 ≤ pos_part z → seek_answer s i z ≡ (neg einval, s)
unfolding seek_answer
answer-far s i (pos n) h = ground arith
answer-far s i (negsuc n) h = refl

-- Both readings of the sum get the same answer.
answer-wrapped :
    (s : Fs) (i b : ℕ) (offset : ℤ)
    → b ≤ fs_max_data - 1
    → pos_part offset < 2 ^ 31
    → neg_part offset ≤ 2 ^ 31
    → seek_to s i (signed32 (pattern32 (signed32 b +ℤ offset))) ≡ seek_answer s i (pos b +ℤ offset)
answer-wrapped s i b offset h k l = elim (wrapped_sum b offset h k l) [
  | inl e ↦ seek_to-answer s i _ ∙ ap (seek_answer s i) e
  | inr (e, far) ↦
      seek_to-answer s i _ ∙ answer-neg s i _ e ∙ sym (answer-far s i (pos b +ℤ offset) far)
]

fs_lseek-seek_to :
    (s : Fs) (i : ℕ) (offset whence z : ℤ)
    → i < fs_max_fds
    → (fd_entry s i).in_use ≡ true
    → seek_target (fd_entry s i).offset (node s (fd_node s i)).size offset whence ≡ some z
    → fs_lseek s (pos i) offset whence ≡ seek_to s i z
unfolding fs_lseek bad_fd
fs_lseek-seek_to s i offset whence z lt u e = ground arith

zero-add_ℤ : (z : ℤ) → pos 0 +ℤ z ≡ z
zero-add_ℤ (pos n) = ground arith
zero-add_ℤ (negsuc n) = ground arith

-- On an open descriptor `fs_lseek` answers by the exact position, base plus offset, for every int32_t
-- offset, those included whose 32-bit sum wraps: a position from 0 to 4095 is returned and becomes the
-- descriptor's offset, and any other is refused with EINVAL and changes nothing.
pub fs_lseek_exact :
    {s : Fs} (i : ℕ) (offset : ℤ) (w : Whence)
    → IsSized s
    → i < fs_max_fds
    → (fd_entry s i).in_use ≡ true
    → pos_part offset < 2 ^ 31
    → neg_part offset ≤ 2 ^ 31
    → fs_lseek s (pos i) offset (whence_code w) ≡ seek_answer s i (pos (base_of s i w) +ℤ offset)
unfolding seek_target whence_code base_of
fs_lseek_exact {s} i offset seek_set v lt u k l =
    fs_lseek-seek_to s i offset (pos 0) offset lt u refl
    ∙ seek_to-answer s i offset
    ∙ ap (seek_answer s i) (sym (zero-add_ℤ offset))
fs_lseek_exact {s} i offset seek_cur v lt u k l =
    fs_lseek-seek_to s i offset (pos 1) _ lt u refl
    ∙ answer-wrapped s i (fd_entry s i).offset offset (v.fd_fits i).offset_le k l
fs_lseek_exact {s} i offset seek_end v lt u k l =
    fs_lseek-seek_to s i offset (pos 2) _ lt u refl
    ∙ answer-wrapped s i (node s (fd_node s i)).size offset (v.node_fits (fd_node s i)).size_le k l
