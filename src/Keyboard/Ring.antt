-- ===== src/Keyboard/Ring.antt =====
-- The ring of src/keyboard.c against a queue of at most 255 characters.
use native.Mathlib.Decide.{ℕ_discrete}
use my_misu_os.Base.{
  ℕ, zero, suc, ◌+◌, ◌-◌, ◌%◌, ◌<◌, ◌≡◌, refl, sym, ap, ap₂, ◌∙◌, ◌≢◌, Option, none, some, List, [],
  ◌∷◌, ◌++◌, arith, ltb, if◌then◌else◌, length, get_or, set, length-set, get_or-set_self,
  get_or-set_ne,
}
use my_misu_os.Keyboard.{kb_buffer_size, Keyboard, kb_push, keyboard_haschar, keyboard_getchar}

pub record IsRing (k : Keyboard) : Type 0 where
  pub buffer_len : length k.kb_buffer ≡ kb_buffer_size
  pub read_lt : k.kb_read < kb_buffer_size
  pub write_lt : k.kb_write < kb_buffer_size

-- The `n` characters from index `h` on, round the end of the buffer.
unfoldable pub window : List ℕ → ℕ → ℕ → List ℕ
window buf h zero = []
window buf h (suc n) = get_or buf h 0 ∷ window buf ((h + 1) % kb_buffer_size) n

abbrev pub waiting : Keyboard → ℕ
waiting k = (k.kb_write + kb_buffer_size - k.kb_read) % kb_buffer_size

-- The characters that wait to be read, oldest first.
unfoldable pub contents : Keyboard → List ℕ
contents k = window k.kb_buffer k.kb_read (waiting k)

length-window : (buf : List ℕ) (h n : ℕ) → length (window buf h n) ≡ n
unfolding window
length-window buf h zero = refl
length-window buf h (suc n) = ap suc (length-window buf ((h + 1) % kb_buffer_size) n)

pub length-contents : (k : Keyboard) → length (contents k) ≡ waiting k
unfolding contents
length-contents k = length-window k.kb_buffer k.kb_read (waiting k)

-- A write behind the window extends it.
window-set :
    (buf : List ℕ) (c h n i : ℕ)
    → length buf ≡ kb_buffer_size
    → h < kb_buffer_size
    → n < kb_buffer_size
    → i ≡ (h + n) % kb_buffer_size
    → window (set buf i c) h (suc n) ≡ window buf h n ++ c ∷ []
unfolding window
window-set buf c h zero i l hh hn e =
    let here : i ≡ h = omega arith in
    rw here (ap (λ x. x ∷ []) (get_or-set_self buf h c 0 (omega arith)))
window-set buf c h (suc n) i l hh hn e =
    ap₂ ◌∷◌ (get_or-set_ne buf c 0 (omega arith))
      (window-set buf c ((h + 1) % kb_buffer_size) n i l (omega arith) (omega arith) (omega arith))

window-uncons :
    (buf : List ℕ) (h n : ℕ)
    → 0 < n
    → window buf h n ≡ get_or buf h 0 ∷ window buf ((h + 1) % kb_buffer_size) (n - 1)
unfolding window
window-uncons buf h zero p = absurd (omega arith)
window-uncons buf h (suc n) p =
    ap (λ j. get_or buf h 0 ∷ window buf ((h + 1) % kb_buffer_size) j) (omega arith)

-- What `kb_push` promises: the character joins the queue if fewer than 255 wait, and is dropped
-- otherwise.
unfoldable pub enqueue : List ℕ → ℕ → List ℕ
enqueue q c = if ltb (length q) (kb_buffer_size - 1) then q ++ c ∷ [] else q

push_full : (k : Keyboard) (c : ℕ) → (k.kb_write + 1) % kb_buffer_size ≡ k.kb_read → kb_push k c ≡ k
unfolding kb_push
push_full k c full = ground arith

pushed : Keyboard → ℕ → Keyboard
pushed k c = record k {
  kb_buffer = set k.kb_buffer k.kb_write c;
  kb_write = (k.kb_write + 1) % kb_buffer_size;
}

push_room :
    (k : Keyboard) (c : ℕ)
    → (k.kb_write + 1) % kb_buffer_size ≢ k.kb_read
    → kb_push k c ≡ pushed k c
unfolding kb_push pushed
push_room k c room = ground arith

enqueue_full :
    (k : Keyboard) (c : ℕ)
    → IsRing k
    → (k.kb_write + 1) % kb_buffer_size ≡ k.kb_read
    → enqueue (contents k) c ≡ contents k
unfolding enqueue
enqueue_full k c v full =
    let many : waiting k ≡ 255 = omega (arith, v.read_lt, v.write_lt) in
    ground (arith, length-contents k)

enqueue_room :
    (k : Keyboard) (c : ℕ)
    → IsRing k
    → (k.kb_write + 1) % kb_buffer_size ≢ k.kb_read
    → enqueue (contents k) c ≡ contents k ++ c ∷ []
unfolding enqueue
enqueue_room k c v room =
    let few : waiting k < 255 = omega (arith, v.read_lt, v.write_lt) in
    ground (arith, length-contents k)

contents_room :
    (k : Keyboard) (c : ℕ)
    → IsRing k
    → (k.kb_write + 1) % kb_buffer_size ≢ k.kb_read
    → contents (pushed k c) ≡ contents k ++ c ∷ []
unfolding contents pushed
contents_room k c v room =
    ap (window (set k.kb_buffer k.kb_write c) k.kb_read) (omega arith)
    ∙ window-set k.kb_buffer c k.kb_read (waiting k) k.kb_write v.buffer_len v.read_lt (omega arith)
        (omega arith)

-- `kb_push` keeps the ring in shape and is `enqueue` on its contents.
pub kb_push_refines :
    (k : Keyboard) (c : ℕ)
    → IsRing k
    → IsRing (kb_push k c) × (contents (kb_push k c) ≡ enqueue (contents k) c)
unfolding pushed
kb_push_refines k c v = elim (ℕ_discrete ((k.kb_write + 1) % kb_buffer_size) k.kb_read) [
  | yes full ↦ rw (push_full k c full) (v, sym (enqueue_full k c v full))
  | no room ↦ rw (push_room k c room) (
    record {
      buffer_len = length-set k.kb_buffer k.kb_write c ∙ v.buffer_len;
      read_lt = v.read_lt;
      write_lt = omega arith;
    },
    contents_room k c v room ∙ sym (enqueue_room k c v room),
  )
]

-- What `keyboard_getchar` promises: it waits on an empty queue, and takes the oldest character of any
-- other.
unfoldable pub dequeue : List ℕ → Option (ℕ × List ℕ)
dequeue [] = none
dequeue (c ∷ q) = some (c, q)

abbrev pub seen : Option (ℕ × Keyboard) → Option (ℕ × List ℕ)
seen none = none
seen (some (c, k)) = some (c, contents k)

-- Both statements, for an empty ring and for any other.
Answers : Keyboard → Type 0
Answers k =
    (seen (keyboard_getchar k) ≡ dequeue (contents k))
    × (keyboard_haschar k ≡ ltb 0 (length (contents k)))

empty_ring : (k : Keyboard) → IsRing k → k.kb_read ≡ k.kb_write → Answers k
unfolding Answers keyboard_getchar keyboard_haschar contents dequeue window
empty_ring k v e =
    let none_waiting : waiting k ≡ 0 = omega (arith, v.read_lt) in
    rw none_waiting (ground arith, ground arith)

busy_ring : (k : Keyboard) → IsRing k → k.kb_read ≢ k.kb_write → Answers k
unfolding Answers keyboard_getchar keyboard_haschar contents dequeue
busy_ring k v ne =
    let some_waiting : 0 < waiting k = omega (arith, v.read_lt, v.write_lt) in
    let rest : (k.kb_write + kb_buffer_size - (k.kb_read + 1) % kb_buffer_size) % kb_buffer_size
        ≡ waiting k - 1 =
      omega (arith, v.read_lt, v.write_lt) in
    rw (window-uncons k.kb_buffer k.kb_read (waiting k) some_waiting)
      (rw (← rest) (ground arith), ground arith)

-- `keyboard_getchar` is `dequeue` on the contents, and `keyboard_haschar` tells whether there are any.
pub keyboard_getchar_refines :
    (k : Keyboard)
    → IsRing k
    → (seen (keyboard_getchar k) ≡ dequeue (contents k))
      × (keyboard_haschar k ≡ ltb 0 (length (contents k)))
unfolding Answers
keyboard_getchar_refines k v = elim (ℕ_discrete k.kb_read k.kb_write) [
  | yes e ↦ empty_ring k v e
  | no ne ↦ busy_ring k v ne
]

pub keyboard_getchar-IsRing :
    (k k' : Keyboard) (c : ℕ) → IsRing k → keyboard_getchar k ≡ some (c, k') → IsRing k'
unfolding keyboard_getchar
keyboard_getchar-IsRing k k' c v h = record {
  buffer_len = ground (arith, v.buffer_len);
  read_lt = ground arith;
  write_lt = ground (arith, v.write_lt);
}
