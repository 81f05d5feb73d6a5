-- ===== src/Klog.antt =====
-- src/klog.c: the kernel log, a ring of 64 entries of at most 95 bytes.
mod Tests
pub mod History
use my_misu_os.Base.{
  ltb_ℤ, signed32, pos, pos_part, ℤ, ℕ, zero, suc, ◌+◌, ◌-◌, ◌%◌, ◌^◌, Bool, List, [], ◌∷◌, ◌==◌,
  if◌then◌else◌, get_or, set, replicate,
}

abbrev pub klog_max_entries : ℕ
klog_max_entries = 64

abbrev pub klog_line_len : ℕ
klog_line_len = 96

-- `klog_level_t`; `ok_level` is KLOG_OK.
pub data KlogLevel : Type 0 where
  info warn err ok_level : KlogLevel

-- `klog_entry_t`
pub record KlogEntry : Type 0 where
  pub tick : ℕ
  pub level : KlogLevel
  pub msg : List ℕ

-- `klog_total` is the bit pattern of an `int`, which counts every message since the start.
pub record Klog : Type 0 where
  pub klog_buf : List KlogEntry
  pub klog_head : ℕ
  pub klog_total : ℕ

-- What the `memset` leaves in an entry.
unfoldable pub zero_entry : KlogEntry
zero_entry = record { tick = 0; level = info; msg = replicate klog_line_len 0 }

unfoldable pub klog_init : Klog
klog_init = record {
  klog_buf = replicate klog_max_entries zero_entry;
  klog_head = 0;
  klog_total = 0;
}

-- `while (msg[i] && i < KLOG_LINE_LEN - 1) e->msg[i] = msg[i]; e->msg[i] = 0;`, with `room` for the
-- bytes that `i` may still pass.
unfoldable pub copy_msg : List ℕ → List ℕ → ℕ → List ℕ
copy_msg [] msg room = []
copy_msg (d ∷ ds) msg zero = 0 ∷ ds
copy_msg (d ∷ ds) [] (suc room) = 0 ∷ ds
copy_msg (d ∷ ds) (c ∷ cs) (suc room) = if c == 0 then 0 ∷ ds else c ∷ copy_msg ds cs room

-- The entry that a message is stored in; bytes behind its terminator stay.
abbrev pub fill_entry : KlogEntry → ℕ → KlogLevel → List ℕ → KlogEntry
fill_entry e now level msg = record {
  tick = now;
  level = level;
  msg = copy_msg e.msg msg (klog_line_len - 1);
}

unfoldable pub klog : Klog → ℕ → KlogLevel → List ℕ → Klog
klog k now level msg = record {
  klog_buf =
      set k.klog_buf k.klog_head
        (fill_entry (get_or k.klog_buf k.klog_head zero_entry) now level msg);
  klog_head = (k.klog_head + 1) % klog_max_entries;
  klog_total = (k.klog_total + 1) % 2 ^ 32;
}

-- `klog_total < KLOG_MAX_ENTRIES`
unfoldable pub is_partial : Klog → Bool
is_partial k = ltb_ℤ (signed32 k.klog_total) (pos klog_max_entries)

unfoldable pub klog_count : Klog → ℤ
klog_count k = if is_partial k then signed32 k.klog_total else pos klog_max_entries

unfoldable pub klog_start : Klog → ℕ
klog_start k = if is_partial k then 0 else k.klog_head

-- The entries that the loop of `klog_print` visits, in order, `n` of them from round `i` on.
unfoldable pub print_from : Klog → ℕ → ℕ → List KlogEntry
print_from k zero i = []
print_from k (suc n) i =
    get_or k.klog_buf ((klog_start k + i) % klog_max_entries) zero_entry ∷ print_from k n (suc i)

unfoldable pub printed : Klog → List KlogEntry
printed k = print_from k (pos_part (klog_count k)) 0
