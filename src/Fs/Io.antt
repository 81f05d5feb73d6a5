-- ===== src/Fs/Io.antt =====
-- Reading, writing and seeking through a descriptor of src/fs.c.
use my_misu_os.Base.{get_or-set_self}
use my_misu_os.Base.{
  ℕ, zero, suc, ◌+◌, ◌-◌, ◌%◌, ◌^◌, ◌≤◌, ◌<◌, bit_and, ◌≡◌, refl, ap, ap₂, ◌∙◌, true, false, Option,
  some, List, [], ◌∷◌, ◌++◌, arith, ltb, leb, if◌then◌else◌, length, set, take, drop, at_offset,
  length-set, length-drop, drop-at_offset, ℤ, pos, pos_part, signed32,
}
use my_misu_os.CStrings.{memcpy}
use my_misu_os.CStrings.Copy.{take-memcpy, memcpy-eq_append}
use my_misu_os.Fs.{
  fs_max_data, fs_max_fds, Fs, Node, FdEntry, node, fd_entry, put_node, put_fd, zero_fd, zero_node,
}
use my_misu_os.Fs.Descriptors.{
  has_flag, o_append, bad_fd, fd_node, fs_read_fd, read_at, fs_write_fd, write_at, write_offset,
  seek_target, seek_to, fs_lseek,
}
use my_misu_os.Fs.Sizes.{IsSized, length-set-at_offset}

take-drop-set :
    (off n i v : ℕ) (xs : List ℕ)
    → off + n ≤ i
    → take n (drop off (set xs i v)) ≡ take n (drop off xs)
take-drop-set off n i v [] h = refl
take-drop-set zero zero i v (x ∷ xs) h = refl
take-drop-set zero (suc n) zero v (x ∷ xs) h = absurd (omega arith)
take-drop-set zero (suc n) (suc i) v (x ∷ xs) h =
    ap (λ ys. x ∷ ys) (take-drop-set zero n i v xs (omega arith))
take-drop-set (suc off) n zero v (x ∷ xs) h = absurd (omega arith)
take-drop-set (suc off) n (suc i) v (x ∷ xs) h = take-drop-set off n i v xs (omega arith)

-- An open descriptor for reading and writing that does not append.
pub record IsRdwr (s : Fs) (i : ℕ) : Type 0 where
  pub fd_lt : i < fs_max_fds
  pub used : (fd_entry s i).in_use ≡ true
  pub rdwr : bit_and (fd_entry s i).flags 3 ≡ 2
  pub plain : has_flag (fd_entry s i).flags o_append ≡ false

-- The node after `n` bytes of `buf` were written at `off`.
abbrev grown : Node → ℕ → List ℕ → ℕ → Node
grown nd off buf n =
    let size' = if ltb nd.size (off + n) then off + n else nd.size in
    record nd {
      size = size';
      content = set (at_offset off (λ p. memcpy p buf n) nd.content) size' 0;
    }

-- `lseek` from the start to a position inside a file's room.
seek_eq :
    (s : Fs) (i off : ℕ)
    → i < fs_max_fds
    → (fd_entry s i).in_use ≡ true
    → off ≤ fs_max_data - 1
    → fs_lseek s (pos i) (pos off) (pos 0)
      ≡ (pos off, put_fd s i (record (fd_entry s i) { offset = off }))
unfolding fs_lseek seek_target seek_to bad_fd
seek_eq s i off lt u h = ground arith

read_at_eq :
    (s : Fs) (i : ℕ) (dst : List ℕ) (n : ℕ)
    → 0 < n
    → (fd_entry s i).offset + n ≤ (node s (fd_node s i)).size
    → (node s (fd_node s i)).size ≤ fs_max_data - 1
    → read_at s i dst n ≡ (
      pos n,
      memcpy dst (drop (fd_entry s i).offset (node s (fd_node s i)).content) n,
      put_fd s i (record (fd_entry s i) { offset = (fd_entry s i).offset + n }),
    )
unfolding read_at
read_at_eq s i dst n pos_n h k =
    let f = fd_entry s i in
    let nd = node s (fd_node s i) in
    let copied : (if ltb n (nd.size - f.offset) then n else nd.size - f.offset) ≡ n =
      ground arith in
    let moved : (f.offset + n) % 2 ^ 32 ≡ f.offset + n = omega arith in
    let small : signed32 n ≡ pos n = ground arith in
    let more : leb nd.size f.offset ≡ false = ground arith in rw (more, copied, moved, small)

-- A read of bytes that are all in the file.
read_eq :
    (s : Fs) (i : ℕ) (dst : List ℕ) (n : ℕ)
    → IsRdwr s i
    → 0 < n
    → (fd_entry s i).offset + n ≤ (node s (fd_node s i)).size
    → (node s (fd_node s i)).size ≤ fs_max_data - 1
    → fs_read_fd s (pos i) (some dst) n ≡ (
      pos n,
      some (memcpy dst (drop (fd_entry s i).offset (node s (fd_node s i)).content) n),
      put_fd s i (record (fd_entry s i) { offset = (fd_entry s i).offset + n }),
    )
unfolding fs_read_fd bad_fd
read_eq s i dst n o pos_n h k = ground (arith, read_at_eq s i dst n pos_n h k)

-- The same, where the descriptor and its node are known.
read_known :
    (s : Fs) (i : ℕ) (dst : List ℕ) (n : ℕ) (f : FdEntry) (nd : Node)
    → IsRdwr s i
    → fd_entry s i ≡ f
    → node s (fd_node s i) ≡ nd
    → 0 < n
    → f.offset + n ≤ nd.size
    → nd.size ≤ fs_max_data - 1
    → let (r, out, _) = fs_read_fd s (pos i) (some dst) n in
      (r ≡ pos n) × (out ≡ some (memcpy dst (drop f.offset nd.content) n))
read_known s i dst n f nd o ef en some_bytes h k =
    let eo = ap (λ (g : FdEntry). g.offset) ef in
    let es = ap (λ (m : Node). m.size) en in
    let e = read_eq s i dst n o some_bytes (omega arith) (omega arith) in
    (
      ap (λ (z : ℤ × Option (List ℕ) × Fs). z.0) e,
      ap (λ (z : ℤ × Option (List ℕ) × Fs). z.1) e
          ∙ ap₂ (λ (g : FdEntry) (m : Node). some (memcpy dst (drop g.offset m.content) n)) ef en,
    )

module _ (s : Fs) (i : ℕ) (buf : List ℕ) (n : ℕ) (v : IsSized s) (o : IsRdwr s i)
    (fits : (fd_entry s i).offset + n ≤ fs_max_data - 1) (full : n ≤ length buf) where
  abbrev off : ℕ
  off = (fd_entry s i).offset

  abbrev written : Fs
  written =
      put_fd (put_node s (fd_node s i) (grown (node s (fd_node s i)) off buf n)) i
        (record (fd_entry s i) { offset = off + n })

  copied : (if ltb n (fs_max_data - 1 - off) then n else fs_max_data - 1 - off) ≡ n
  copied = ground arith

  moved : (off + n) % 2 ^ 32 ≡ off + n
  moved = omega arith

  small : signed32 n ≡ pos n
  small = ground arith

  write_at_eq : write_at s i off buf n ≡ (pos n, written)
  unfolding write_at
  write_at_eq = rw (copied, moved) (ap (λ z. (z, written)) small)

  write_eq : 0 < n → fs_write_fd s (pos i) (some buf) n ≡ (pos n, written)
  unfolding fs_write_fd write_offset bad_fd
  write_eq some_bytes = ground (arith, write_at_eq)

  node_lt : fd_node s i < length s.nodes
  node_lt = omega (arith, v.nodes_len, (v.fd_fits i).node_lt)

  fd_lt : i < length s.fd_table
  fd_lt = omega (arith, v.fds_len, o.fd_lt)

  abbrev rewound : Fs
  rewound = put_fd written i (record (fd_entry written i) { offset = off })

  entry-written : fd_entry written i ≡ record (fd_entry s i) { offset = off + n }
  entry-written = get_or-set_self s.fd_table i _ zero_fd fd_lt

  entry-rewound : fd_entry rewound i ≡ fd_entry s i
  entry-rewound =
      get_or-set_self written.fd_table i _ zero_fd
        (omega (arith, length-set s.fd_table i (record (fd_entry s i) { offset = off + n }), fd_lt))
      ∙ ap (λ (f : FdEntry). record f { offset = off }) entry-written

  node-written : node rewound (fd_node s i) ≡ grown (node s (fd_node s i)) off buf n
  node-written = get_or-set_self s.nodes (fd_node s i) _ zero_node node_lt

  -- What is read back at `off` after the write.
  bytes-written :
      (dst : List ℕ)
      → n ≤ length dst
      → memcpy dst (drop off (grown (node s (fd_node s i)) off buf n).content) n
        ≡ take n buf ++ drop n dst
  bytes-written dst room =
      let nd = node s (fd_node s i) in
      let g = v.node_fits (fd_node s i) in
      let put = at_offset off (λ p. memcpy p buf n) nd.content in
      let end = if ltb nd.size (off + n) then off + n else nd.size in
      let past : off + n ≤ end = ground arith in
      let all : length (set put end 0) ≡ fs_max_data =
        length-set-at_offset nd.content buf off n end 0 ∙ g.content_len in
      let back : take n (drop off (set put end 0)) ≡ take n buf =
        take-drop-set off n end 0 put past
        ∙ ap (take n) (drop-at_offset off (λ p. memcpy p buf n) nd.content (omega arith))
        ∙ take-memcpy (drop off nd.content) buf n (omega (arith, length-drop off nd.content))
            full in
      memcpy-eq_append dst (drop off (set put end 0)) n room
        (omega (arith, length-drop off (set put end 0)))
      ∙ ap (λ t. t ++ drop n dst) back

  rewound-IsRdwr : IsRdwr rewound i
  rewound-IsRdwr = record {
    fd_lt = o.fd_lt;
    used = ap (λ (f : FdEntry). f.in_use) entry-rewound ∙ o.used;
    rdwr = ap (λ (f : FdEntry). bit_and f.flags 3) entry-rewound ∙ o.rdwr;
    plain = ap (λ (f : FdEntry). has_flag f.flags o_append) entry-rewound ∙ o.plain;
  }

  seek_back : fs_lseek written (pos i) (pos off) (pos 0) ≡ (pos off, rewound)
  seek_back =
      seek_eq written i off o.fd_lt (ap (λ (f : FdEntry). f.in_use) entry-written ∙ o.used)
        (omega arith)

  read_back :
      (dst : List ℕ)
      → 0 < n
      → n ≤ length dst
      → let (r, out, _) = fs_read_fd rewound (pos i) (some dst) n in
        (r ≡ pos n) × (out ≡ some (take n buf ++ drop n dst))
  read_back dst some_bytes room =
      let g = v.node_fits (fd_node s i) in
      let nd =
        ap (λ (f : FdEntry). node rewound (pos_part f.node_idx)) entry-rewound ∙ node-written in
      let (r, out) =
        read_known rewound i dst n (fd_entry s i) _ rewound-IsRdwr entry-rewound nd some_bytes
          (ground arith) (ground arith) in
      (r, out ∙ ap some (bytes-written dst room))

  -- On a descriptor that is open for reading and writing, without O_APPEND, in tables of the right
  -- lengths: at least one byte written at its position, which leaves room for the terminator, is what a
  -- read of as many bytes into a buffer with room for them returns after seeking back; each of the three
  -- calls reports success.
  pub write-lseek-read :
      (dst : List ℕ)
      → 0 < n
      → n ≤ length dst
      → let (w, s1) = fs_write_fd s (pos i) (some buf) n in
        let (p, s2) = fs_lseek s1 (pos i) (pos (fd_entry s i).offset) (pos 0) in
        let (r, out, _) = fs_read_fd s2 (pos i) (some dst) n in
        (w ≡ pos n)
        × (p ≡ pos (fd_entry s i).offset)
        × (r ≡ pos n)
        × (out ≡ some (take n buf ++ drop n dst))
  write-lseek-read dst some_bytes room =
      rw (write_eq some_bytes)
        (rw seek_back let (r, out) = read_back dst some_bytes room in (refl, refl, r, out))
