-- ===== src/AggWriteMeta/RoundTrip.antt =====
-- save and load of agg_write_meta against each other, and the answers of load.
use cache_work.Prelude.{
  ℕ, zero, suc, ◌+◌, ◌*◌, ◌^◌, ◌≤◌, ◌<◌, ◌≡◌, inl, inr, refl, ◌∙◌, sym, Bool, true, false, ltb,
  ◌==◌, Bool-cases, some, >>=-eq-some, List, [], ◌∷◌, length, length-append, drop, take-append,
  drop-append, take_all, arith,
}
use cache_work.Units.{u32}
use cache_work.Bytes.{Memory, read_bytes, le_bytes, of_le_bytes, be_bytes}
use cache_work.Bytes.Laws.{
  length-le_bytes, of_le_bytes-le_bytes, length-be_bytes, of_be_bytes-be_bytes,
}
use cache_work.Bytes.Writes.{
  read-eq, written, write_four, read_first, read_second, read_third, read_fourth, read_behind,
}
use cache_work.Bytes.Streams.{MemoryReader, read, MemoryWriter}
use cache_work.RangeElem.Stored.{
  range_elem_bytes, IsWide, length-range_elem_bytes, elem_of_bytes-range_elem_bytes,
}
use cache_work.AggWriteMeta.{AggMetaEntry, AggWriteMeta, meta_entry_bytes}
use cache_work.AggWriteMeta.Stored.{
  hdr_ftr_magic, entry_bytes, entry_of_bytes, entries_bytes, entries_of_bytes, is_sorted, save,
  load_footer, load_entries, load_count, load,
}

-- The members of an entry are in the range of their types.
pub data AreWide : List AggMetaEntry → Type 0 where
  no_entries : AreWide []
  entry :
      {e : AggMetaEntry} {xs : List AggMetaEntry}
      → IsWide e.rng
      → e.key < 256 ^ 16
      → AreWide xs
      → AreWide (e ∷ xs)

length-entry_bytes : (e : AggMetaEntry) → length (entry_bytes e) ≡ 32
unfolding entry_bytes
length-entry_bytes e =
    rw
      (
        length-append (range_elem_bytes e.rng) (be_bytes 16 e.key),
        length-range_elem_bytes e.rng,
        length-be_bytes 16 e.key,
      )
      refl

entry_of_bytes-entry_bytes :
    (e : AggMetaEntry) → IsWide e.rng → e.key < 256 ^ 16 → entry_of_bytes (entry_bytes e) ≡ e
unfolding entry_bytes entry_of_bytes
entry_of_bytes-entry_bytes e w k =
    rw
      (
        take-append 16 (range_elem_bytes e.rng) (be_bytes 16 e.key) (length-range_elem_bytes e.rng),
        drop-append 16 (range_elem_bytes e.rng) (be_bytes 16 e.key) (length-range_elem_bytes e.rng),
        take_all 16 (be_bytes 16 e.key) (length-be_bytes 16 e.key),
        elem_of_bytes-range_elem_bytes e.rng w,
        of_be_bytes-be_bytes 16 e.key k,
      )
      refl

length-entries_bytes :
    (xs : List AggMetaEntry) → length (entries_bytes xs) ≡ length xs * meta_entry_bytes
unfolding entries_bytes
length-entries_bytes [] = refl
length-entries_bytes (e ∷ xs) = omega (
  arith,
  length-append (entry_bytes e) (entries_bytes xs),
  length-entry_bytes e,
  length-entries_bytes xs,
)

entries_of_bytes-entries_bytes :
    (xs : List AggMetaEntry) → AreWide xs → entries_of_bytes (length xs) (entries_bytes xs) ≡ xs
unfolding entries_of_bytes entries_bytes
entries_of_bytes-entries_bytes [] no_entries = refl
entries_of_bytes-entries_bytes (e ∷ xs) (entry w k ws) =
    rw
      (
        take-append 32 (entry_bytes e) (entries_bytes xs) (length-entry_bytes e),
        drop-append 32 (entry_bytes e) (entries_bytes xs) (length-entry_bytes e),
        entry_of_bytes-entry_bytes e w k,
        entries_of_bytes-entries_bytes xs ws,
      )
      refl

-- What save leaves in the buffer.
abbrev pub magic_bytes : List ℕ
magic_bytes = le_bytes 8 hdr_ftr_magic

abbrev pub count_bytes : AggWriteMeta → List ℕ
count_bytes m = le_bytes 4 (u32 (length m.entries))

module _ (m : AggWriteMeta) (w : MemoryWriter) where
  abbrev pub meta_bytes : ℕ
  meta_bytes = length m.entries * meta_entry_bytes

  abbrev pub saved : Memory
  saved =
      written magic_bytes (count_bytes m) (entries_bytes m.entries) magic_bytes 8 4 meta_bytes
        w.buf_offs w.buf

  save-eq :
      w.buf_offs + 8 + 4 + meta_bytes + 8 ≤ w.buf_size
      → save m w ≡ some (record w { buf = saved; buf_offs = w.buf_offs + 8 + 4 + meta_bytes + 8 })
  unfolding save
  save-eq h =
      write_four magic_bytes (count_bytes m) (entries_bytes m.entries) magic_bytes 8 4 meta_bytes 8
        (length-le_bytes 8 hdr_ftr_magic) (length-le_bytes 4 (u32 (length m.entries)))
        (length-entries_bytes m.entries) (length-le_bytes 8 hdr_ftr_magic) w h

  abbrev pub reader_at : ℕ → MemoryReader
  reader_at o = record { buf = saved; buf_offs = o; buf_size = w.buf_size }

  header_magic : of_le_bytes (read_bytes 8 w.buf_offs saved) ≡ hdr_ftr_magic
  header_magic =
      rw
        (read_first _ _ _ _ 8 4 meta_bytes 8 (length-le_bytes 8 _) (length-le_bytes 4 _)
          (length-entries_bytes m.entries) (length-le_bytes 8 _) w.buf_offs w.buf)
        (of_le_bytes-le_bytes 8 hdr_ftr_magic (omega arith))

  saved_count :
      length m.entries < 2 ^ 32
      → of_le_bytes (read_bytes 4 (w.buf_offs + 8) saved) ≡ length m.entries
  saved_count b =
      rw
        (read_second _ _ _ _ 8 4 meta_bytes 8 (length-le_bytes 8 _) (length-le_bytes 4 _)
          (length-entries_bytes m.entries) (length-le_bytes 8 _) w.buf_offs w.buf)
        (of_le_bytes-le_bytes 4 (u32 (length m.entries)) (omega arith) ∙ omega arith)

  saved_entries :
      AreWide m.entries
      → entries_of_bytes (length m.entries) (read_bytes meta_bytes (w.buf_offs + 8 + 4) saved)
        ≡ m.entries
  saved_entries wide =
      rw
        (read_third _ _ _ _ 8 4 meta_bytes 8 (length-le_bytes 8 _) (length-le_bytes 4 _)
          (length-entries_bytes m.entries) (length-le_bytes 8 _) w.buf_offs w.buf)
        (entries_of_bytes-entries_bytes m.entries wide)

  footer_magic : of_le_bytes (read_bytes 8 (w.buf_offs + 8 + 4 + meta_bytes) saved) ≡ hdr_ftr_magic
  footer_magic =
      rw
        (read_fourth _ _ _ _ 8 4 meta_bytes 8 (length-le_bytes 8 _) (length-le_bytes 4 _)
          (length-entries_bytes m.entries) (length-le_bytes 8 _) w.buf_offs w.buf)
        (of_le_bytes-le_bytes 8 hdr_ftr_magic (omega arith))

  saved_behind :
      (n at : ℕ)
      → w.buf_offs + 8 + 4 + meta_bytes + 8 ≤ at
      → read_bytes n at saved ≡ read_bytes n at w.buf
  saved_behind n at h =
      read_behind _ _ _ _ 8 4 meta_bytes 8 (length-le_bytes 8 _) (length-le_bytes 4 _)
        (length-entries_bytes m.entries) (length-le_bytes 8 _) w.buf_offs w.buf n at h

  module _ (m0 : AggWriteMeta) (h : w.buf_offs + 8 + 4 + meta_bytes + 8 ≤ w.buf_size) where
    load_footer-saved :
        (xs : List AggMetaEntry)
        → load_footer xs m0 (reader_at (w.buf_offs + 8 + 4 + meta_bytes))
          ≡ some (true, record m0 { entries = xs })
    unfolding load_footer
    load_footer-saved xs =
        rw (read-eq 8 (reader_at (w.buf_offs + 8 + 4 + meta_bytes)) (omega arith), footer_magic)
          refl

    load_entries-saved :
        AreWide m.entries
        → is_sorted m.entries ≡ true
        → load_entries (length m.entries) m0 (reader_at (w.buf_offs + 8 + 4))
          ≡ some (true, record m0 { entries = m.entries })
    unfolding load_entries
    load_entries-saved wide s =
        rw
          (read-eq meta_bytes (reader_at (w.buf_offs + 8 + 4)) (omega arith), saved_entries wide, s)
          (load_footer-saved m.entries)

    load_count-saved :
        length m.entries < 2 ^ 32
        → length m.entries ≤ m0.max_cnt_entries
        → AreWide m.entries
        → is_sorted m.entries ≡ true
        → load_count m0 (reader_at (w.buf_offs + 8))
          ≡ some (true, record m0 { entries = m.entries })
    unfolding load_count
    load_count-saved b le wide s =
        let q : ltb m0.max_cnt_entries (length m.entries) ≡ false = ground arith in
        rw (read-eq 4 (reader_at (w.buf_offs + 8)) (omega arith), saved_count b, q)
          (load_entries-saved wide s)

    load-saved :
        length m.entries < 2 ^ 32
        → length m.entries ≤ m0.max_cnt_entries
        → AreWide m.entries
        → is_sorted m.entries ≡ true
        → load m0 (reader_at w.buf_offs) ≡ some (true, record m0 { entries = m.entries })
    unfolding load
    load-saved b le wide s =
        rw (read-eq 8 (reader_at w.buf_offs) (omega arith), header_magic)
          (load_count-saved b le wide s)

-- Where the sorted entries of a metadata, each in the range of its types, fit into the rest of a
-- buffer, save succeeds, and load at the position where save started, into a metadata that may
-- hold so many entries, returns true and the same entries. What is behind them is unchanged.
pub save-load :
    (m m0 : AggWriteMeta) (w : MemoryWriter)
    → length m.entries < 2 ^ 32
    → length m.entries ≤ m0.max_cnt_entries
    → AreWide m.entries
    → is_sorted m.entries ≡ true
    → w.buf_offs + 20 + length m.entries * meta_entry_bytes ≤ w.buf_size
    → (w' : MemoryWriter) × (save m w ≡ some w')
      × (w'.buf_offs ≡ w.buf_offs + 20 + length m.entries * meta_entry_bytes)
      × (load m0 (record { buf = w'.buf; buf_offs = w.buf_offs; buf_size = w.buf_size })
          ≡ some (true, record m0 { entries = m.entries }))
      × ((n at : ℕ) → w'.buf_offs ≤ at → read_bytes n at w'.buf ≡ read_bytes n at w.buf)
save-load m m0 w b le wide s h = (
  _,
  save-eq m w (omega arith),
  omega arith,
  load-saved m w m0 (omega arith) b le wide s,
  λ n at k. saved_behind m w n at k,
)

-- What load answers: where it does not abort, it either returns false and leaves the metadata as
-- it was, or returns true and the metadata holds sorted entries, not more than it may hold.
pub data LoadAnswer (m : AggWriteMeta) : Bool × AggWriteMeta → Type 0 where
  refused : LoadAnswer m (false, m)
  loaded :
      (xs : List AggMetaEntry)
      → is_sorted xs ≡ true
      → length xs ≤ m.max_cnt_entries
      → LoadAnswer m (true, record m { entries = xs })

length-entries_of_bytes : (n : ℕ) (bs : List ℕ) → length (entries_of_bytes n bs) ≡ n
unfolding entries_of_bytes
length-entries_of_bytes zero bs = refl
length-entries_of_bytes (suc n) bs = rw (length-entries_of_bytes n (drop meta_entry_bytes bs)) refl

some-LoadAnswer :
    {m : AggWriteMeta} {a b : Bool × AggWriteMeta}
    → LoadAnswer m a
    → some a ≡ some b
    → LoadAnswer m b
some-LoadAnswer {a = a} {b = b} w q = let p : a ≡ b = cc in rw (sym p) w

load_footer-LoadAnswer :
    (xs : List AggMetaEntry) (m : AggWriteMeta) (r : MemoryReader) {a : Bool × AggWriteMeta}
    → is_sorted xs ≡ true
    → length xs ≤ m.max_cnt_entries
    → load_footer xs m r ≡ some a
    → LoadAnswer m a
unfolding load_footer
load_footer-LoadAnswer xs m r s le h =
    let ((magic, rest), p, h') = >>=-eq-some (read 8 r) _ h in
    elim (Bool-cases (of_le_bytes magic == hdr_ftr_magic)) [
      | inl t ↦ some-LoadAnswer (loaded xs s le) (rw t at h')
      | inr f ↦ some-LoadAnswer refused (rw f at h')
    ]

load_entries-LoadAnswer :
    (n : ℕ) (m : AggWriteMeta) (r : MemoryReader) {a : Bool × AggWriteMeta}
    → n ≤ m.max_cnt_entries
    → load_entries n m r ≡ some a
    → LoadAnswer m a
unfolding load_entries
load_entries-LoadAnswer n m r le h =
    let ((bytes, rest), p, h') = >>=-eq-some (read (n * meta_entry_bytes) r) _ h in
    let len : length (entries_of_bytes n bytes) ≡ n = length-entries_of_bytes n bytes in
    elim (Bool-cases (is_sorted (entries_of_bytes n bytes))) [
      | inl t ↦ load_footer-LoadAnswer _ m rest t (rw len le) (rw t at h')
      | inr f ↦ some-LoadAnswer refused (rw f at h')
    ]

load_count-LoadAnswer :
    (m : AggWriteMeta) (r : MemoryReader) {a : Bool × AggWriteMeta}
    → load_count m r ≡ some a
    → LoadAnswer m a
unfolding load_count
load_count-LoadAnswer m r h =
    let ((bytes, rest), p, h') = >>=-eq-some (read 4 r) _ h in
    elim (Bool-cases (ltb m.max_cnt_entries (of_le_bytes bytes))) [
      | inl t ↦ some-LoadAnswer refused (rw t at h')
      | inr f ↦ load_entries-LoadAnswer (of_le_bytes bytes) m rest (ground arith) (rw f at h')
    ]

load-LoadAnswer :
    (m : AggWriteMeta) (r : MemoryReader) {a : Bool × AggWriteMeta}
    → load m r ≡ some a
    → LoadAnswer m a
unfolding load
load-LoadAnswer m r h =
    let ((magic, rest), p, h') = >>=-eq-some (read 8 r) _ h in
    elim (Bool-cases (of_le_bytes magic == hdr_ftr_magic)) [
      | inl t ↦ load_count-LoadAnswer m rest (rw t at h')
      | inr f ↦ some-LoadAnswer refused (rw f at h')
    ]

load_entries-some :
    (n : ℕ) (m : AggWriteMeta) (r : MemoryReader)
    → r.buf_offs + n * meta_entry_bytes + 8 ≤ r.buf_size
    → (a : Bool × AggWriteMeta) × (load_entries n m r ≡ some a)
unfolding load_entries load_footer
load_entries-some n m r h =
    let bytes : List ℕ = read_bytes (n * meta_entry_bytes) r.buf_offs r.buf in
    let rest : MemoryReader = record r { buf_offs = r.buf_offs + n * meta_entry_bytes } in
    rw (read-eq (n * meta_entry_bytes) r (omega arith), read-eq 8 rest (omega arith))
      (elim (Bool-cases (is_sorted (entries_of_bytes n bytes))) [
        | inl t ↦
            rw t
              (elim (Bool-cases (of_le_bytes (read_bytes 8 rest.buf_offs r.buf) == hdr_ftr_magic)) [
                | inl u ↦ rw u (_, refl)
                | inr f ↦ rw f (_, refl)
              ])
        | inr f ↦ rw f (_, refl)
      ])

load_count-some :
    (m : AggWriteMeta) (r : MemoryReader)
    → r.buf_offs + 12 + m.max_cnt_entries * meta_entry_bytes ≤ r.buf_size
    → (a : Bool × AggWriteMeta) × (load_count m r ≡ some a)
unfolding load_count
load_count-some m r h =
    let n : ℕ = of_le_bytes (read_bytes 4 r.buf_offs r.buf) in
    rw (read-eq 4 r (omega arith)) (elim (Bool-cases (ltb m.max_cnt_entries n)) [
      | inl t ↦ rw t (_, refl)
      | inr f ↦
          let le : n ≤ m.max_cnt_entries = ground arith in
          rw f (load_entries-some n m (record r { buf_offs = r.buf_offs + 4 }) (omega arith))
    ])

load-some :
    (m : AggWriteMeta) (r : MemoryReader)
    → r.buf_offs + 20 + m.max_cnt_entries * meta_entry_bytes ≤ r.buf_size
    → (a : Bool × AggWriteMeta) × (load m r ≡ some a)
unfolding load
load-some m r h =
    let rest : MemoryReader = record r { buf_offs = r.buf_offs + 8 } in
    rw (read-eq 8 r (omega arith))
      (elim (Bool-cases (of_le_bytes (read_bytes 8 r.buf_offs r.buf) == hdr_ftr_magic)) [
        | inl t ↦ rw t (load_count-some m rest (omega arith))
        | inr f ↦ rw f (_, refl)
      ])

-- On any bytes, in a buffer with room for as many entries as the metadata may hold, load
-- returns. It returns false and leaves the metadata as it was, or it returns true and the
-- metadata holds sorted entries, no more than it may hold.
pub load_total :
    (m : AggWriteMeta) (r : MemoryReader)
    → r.buf_offs + 20 + m.max_cnt_entries * meta_entry_bytes ≤ r.buf_size
    → (a : Bool × AggWriteMeta) × (load m r ≡ some a) × LoadAnswer m a
load_total m r h = let (a, q) = load-some m r h in (a, q, load-LoadAnswer m r q)
