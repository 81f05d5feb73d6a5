-- ===== src/Klog/History.antt =====
-- The ring of src/klog.c against the list of all messages.
use my_misu_os.Base.{
  ℕ, zero, suc, ◌+◌, ◌-◌, ◌%◌, ◌^◌, ◌<◌, min, ◌≡◌, refl, sym, ap, ap₂, ◌∙◌, ◌≢◌, List, [], ◌∷◌,
  ◌++◌, map, arith, length, get_or, take, length-set, take_of_le, pos_part, get_or-set_all,
  get_or-replicate_all, get_or-set_self, get_or-set_ne,
}
use mathlib.Core.List.{reverse, reverse-append}
use native.Mathlib.Decide.{dec_lt}
use my_misu_os.CStrings.Laws.{text}
use my_misu_os.Klog.{
  klog_max_entries, klog_line_len, KlogLevel, KlogEntry, Klog, zero_entry, klog_init, copy_msg,
  fill_entry, klog, is_partial, klog_count, klog_start, print_from, printed,
}

-- A message as it is logged, and as it is shown: cut to 95 bytes.
pub record Message : Type 0 where
  pub tick : ℕ
  pub level : KlogLevel
  pub msg : List ℕ

unfoldable pub shown : Message → ℕ × KlogLevel × List ℕ
shown m = (m.tick, m.level, take (klog_line_len - 1) (text m.msg))

unfoldable pub view : KlogEntry → ℕ × KlogLevel × List ℕ
view e = (e.tick, e.level, text e.msg)

-- The log after messages, given latest first.
unfoldable pub logged : List Message → Klog
logged [] = klog_init
logged (m ∷ ms) = klog (logged ms) m.tick m.level m.msg

text-copy_msg :
    (d msg : List ℕ) (room : ℕ)
    → room < length d
    → text (copy_msg d msg room) ≡ take room (text msg)
unfolding text copy_msg
text-copy_msg [] msg room h = absurd (omega arith)
text-copy_msg (d ∷ ds) msg zero h = refl
text-copy_msg (d ∷ ds) [] (suc room) h = refl
text-copy_msg (d ∷ ds) (c ∷ cs) (suc room) h = ground (arith, text-copy_msg ds cs room)

length-copy_msg : (d msg : List ℕ) (room : ℕ) → length (copy_msg d msg room) ≡ length d
unfolding copy_msg
length-copy_msg [] msg room = refl
length-copy_msg (d ∷ ds) msg zero = refl
length-copy_msg (d ∷ ds) [] (suc room) = refl
length-copy_msg (d ∷ ds) (c ∷ cs) (suc room) = ground (arith, length-copy_msg ds cs room)

abbrev nothing : Message
nothing = record { tick = 0; level = KlogLevel.info; msg = [] }

-- The slot of the message that was logged `j` messages before the last one, of `n`.
abbrev slot : ℕ → ℕ → ℕ
slot n j = (n - 1 - j) % klog_max_entries

record IsLog (k : Klog) (ms : List Message) : Type 0 where
  buf_len : length k.klog_buf ≡ klog_max_entries
  lines : (i : ℕ) → length (get_or k.klog_buf i zero_entry).msg ≡ klog_line_len
  head_eq : k.klog_head ≡ length ms % klog_max_entries
  total_eq : k.klog_total ≡ length ms % 2 ^ 32
  recent :
      (j : ℕ)
      → j < length ms
      → j < klog_max_entries
      → view (get_or k.klog_buf (slot (length ms) j) zero_entry) ≡ shown (get_or ms j nothing)

zero_line : length zero_entry.msg ≡ klog_line_len
unfolding zero_entry
zero_line = refl

init-IsLog : IsLog klog_init []
unfolding klog_init
init-IsLog = record {
  buf_len = refl;
  lines = λ i.
      get_or-replicate_all (λ e. length e.msg ≡ klog_line_len) 64 i zero_entry zero_entry zero_line
        zero_line;
  head_eq = refl;
  total_eq = refl;
  recent = λ j h. absurd (omega arith);
}

module _ (k : Klog) (ms : List Message) (v : IsLog k ms) (m : Message) where
  old_entry : KlogEntry
  old_entry = get_or k.klog_buf k.klog_head zero_entry

  head_lt : k.klog_head < length k.klog_buf
  head_lt = omega (arith, v.head_eq, v.buf_len)

  filled :
      view (fill_entry (get_or k.klog_buf k.klog_head zero_entry) m.tick m.level m.msg) ≡ shown m
  unfolding view shown
  filled =
      ap (λ (t : List ℕ). (m.tick, m.level, t))
        (text-copy_msg (get_or k.klog_buf k.klog_head zero_entry).msg m.msg 95
          (omega (arith, v.lines k.klog_head)))

  klog-recent :
      (j : ℕ)
      → j < length (m ∷ ms)
      → j < klog_max_entries
      → view (get_or (klog k m.tick m.level m.msg).klog_buf (slot (length (m ∷ ms)) j) zero_entry)
        ≡ shown (get_or (m ∷ ms) j nothing)
  unfolding klog
  klog-recent zero h l =
      let here : slot (length (m ∷ ms)) 0 ≡ k.klog_head = omega (arith, v.head_eq) in
      ap (λ i. view (get_or (klog k m.tick m.level m.msg).klog_buf i zero_entry)) here
      ∙ ap view (get_or-set_self k.klog_buf k.klog_head _ zero_entry head_lt)
      ∙ filled
  klog-recent (suc j) h l =
      let ne : k.klog_head ≢ slot (length (m ∷ ms)) (suc j) = omega (arith, v.head_eq) in
      ap view (get_or-set_ne k.klog_buf _ zero_entry ne)
      ∙ ap (λ i. view (get_or k.klog_buf i zero_entry)) (omega arith)
      ∙ v.recent j (omega arith) (omega arith)

  klog-IsLog : IsLog (klog k m.tick m.level m.msg) (m ∷ ms)
  unfolding klog
  klog-IsLog = record {
    buf_len = length-set k.klog_buf k.klog_head _ ∙ v.buf_len;
    lines =
        get_or-set_all (λ e. length e.msg ≡ klog_line_len) k.klog_buf k.klog_head _ zero_entry
          (length-copy_msg (get_or k.klog_buf k.klog_head zero_entry).msg m.msg 95
            ∙ v.lines k.klog_head)
          v.lines;
    head_eq = omega (arith, v.head_eq);
    total_eq = omega (arith, v.total_eq);
    recent = klog-recent;
  }

logged-IsLog : (ms : List Message) → IsLog (logged ms) ms
unfolding logged
logged-IsLog [] = init-IsLog
logged-IsLog (m ∷ ms) = klog-IsLog (logged ms) ms (logged-IsLog ms) m

take-suc :
    (n : ℕ) (ms : List Message)
    → n < length ms
    → take (suc n) ms ≡ take n ms ++ get_or ms n nothing ∷ []
take-suc n [] h = absurd (omega arith)
take-suc zero (m ∷ ms) h = refl
take-suc (suc n) (m ∷ ms) h = ap (λ xs. m ∷ xs) (take-suc n ms (omega arith))

reverse-take :
    (n : ℕ) (ms : List Message)
    → n < length ms
    → reverse (take (suc n) ms) ≡ get_or ms n nothing ∷ reverse (take n ms)
reverse-take n ms h =
    ap reverse (take-suc n ms h) ∙ reverse-append (take n ms) (get_or ms n nothing ∷ [])

module _ (k : Klog) (ms : List Message) (v : IsLog k ms) (few : length ms < 2 ^ 31) where
  count_eq : pos_part (klog_count k) ≡ min (length ms) klog_max_entries
  unfolding klog_count is_partial
  count_eq = ground (arith, v.total_eq)

  -- The slot of round `i` holds the message with as many later ones as there are later rounds.
  start_slot :
      (i n : ℕ)
      → i + suc n ≡ min (length ms) klog_max_entries
      → (klog_start k + i) % klog_max_entries ≡ slot (length ms) n
  unfolding klog_start is_partial
  start_slot i n h = ground (arith, v.total_eq, v.head_eq)

  print_from-eq :
      (n i : ℕ)
      → i + n ≡ min (length ms) klog_max_entries
      → map view (print_from k n i) ≡ map shown (reverse (take n ms))
  unfolding print_from
  print_from-eq zero i h = refl
  print_from-eq (suc n) i h =
      let lt : n < length ms = omega arith in
      ap₂ ◌∷◌
        (ap (λ j. view (get_or k.klog_buf j zero_entry)) (start_slot i n h)
          ∙ v.recent n lt (omega arith))
        (print_from-eq n (suc i) (omega arith))
      ∙ ap (map shown) (sym (reverse-take n ms lt))

take-min : (n : ℕ) (ms : List Message) → take (min (length ms) n) ms ≡ take n ms
take-min n ms = elim (dec_lt (length ms) n) [
  | yes p ↦
      ap (λ j. take j ms) (omega arith)
      ∙ take_of_le (length ms) ms (omega arith)
      ∙ sym (take_of_le n ms (omega arith))
  | no p ↦ ap (λ j. take j ms) (omega arith)
]

-- After any messages, fewer than 2 ^ 31 of them, `klog_print` shows exactly the last 64 of them, or all
-- if there are fewer, oldest first, each with its tick, its level and its text cut to 95 bytes.
pub printed-logged :
    (ms : List Message)
    → length ms < 2 ^ 31
    → map view (printed (logged ms)) ≡ map shown (reverse (take klog_max_entries ms))
unfolding printed
printed-logged ms few =
    let k = logged ms in
    let v = logged-IsLog ms in
    print_from-eq k ms v few (pos_part (klog_count k)) 0 (omega (arith, count_eq k ms v few))
    ∙ ap (λ n. map shown (reverse (take n ms))) (count_eq k ms v few)
    ∙ ap (λ xs. map shown (reverse xs)) (take-min klog_max_entries ms)
