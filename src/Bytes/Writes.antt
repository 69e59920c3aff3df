-- ===== src/Bytes/Writes.antt =====
-- Four writes in a row through a memory_writer, and what the block holds after them.
use cache_work.Prelude.{
  ℕ, ◌+◌, ◌≤◌, ◌≡◌, inl, inr, refl, ◌∙◌, sym, some, ◌>>=◌, List, length, arith,
}
use cache_work.Bytes.{Memory, write_bytes, read_bytes}
use cache_work.Bytes.Laws.{read_bytes_disjoint, read_bytes-write_bytes}
use cache_work.Bytes.Streams.{MemoryReader, read, MemoryWriter, write}

pub write-eq :
    (bs : List ℕ) (w : MemoryWriter)
    → w.buf_offs + length bs ≤ w.buf_size
    → write bs w
      ≡ some (record w { buf = write_bytes w.buf_offs bs w.buf; buf_offs = w.buf_offs + length bs })
unfolding write
write-eq bs w h = ground arith

write_sized :
    (bs : List ℕ) (n : ℕ) (w : MemoryWriter)
    → length bs ≡ n
    → w.buf_offs + n ≤ w.buf_size
    → write bs w
      ≡ some (record w { buf = write_bytes w.buf_offs bs w.buf; buf_offs = w.buf_offs + n })
write_sized bs n w q h = rw (sym q) (write-eq bs w (omega arith))

pub read-eq :
    (n : ℕ) (r : MemoryReader)
    → r.buf_offs + n ≤ r.buf_size
    → read n r ≡ some (read_bytes n r.buf_offs r.buf, record r { buf_offs = r.buf_offs + n })
unfolding read
read-eq n r h = ground arith

-- Four runs of bytes, `na` and so on long, from `o` on.
abbrev pub written : (a b c d : List ℕ) (na nb nc : ℕ) (o : ℕ) → Memory → Memory
written a b c d na nb nc o m =
    write_bytes (o + na + nb + nc) d
      (write_bytes (o + na + nb) c (write_bytes (o + na) b (write_bytes o a m)))

module _ (a b c d : List ℕ) (na nb nc nd : ℕ) (qa : length a ≡ na) (qb : length b ≡ nb)
    (qc : length c ≡ nc) (qd : length d ≡ nd) where
  pub write_four :
      (w : MemoryWriter)
      → w.buf_offs + na + nb + nc + nd ≤ w.buf_size
      → (do x ← write a w; y ← write b x; z ← write c y; write d z)
        ≡ some (record w {
          buf = written a b c d na nb nc w.buf_offs w.buf;
          buf_offs = w.buf_offs + na + nb + nc + nd;
        })
  write_four w h =
      rw
        (
          write_sized a na w qa (omega arith),
          write_sized b nb (record { buf = _; buf_offs = w.buf_offs + na; buf_size = w.buf_size })
              qb (omega arith),
          write_sized c nc
              (record { buf = _; buf_offs = w.buf_offs + na + nb; buf_size = w.buf_size }) qc
              (omega arith),
          write_sized d nd
              (record { buf = _; buf_offs = w.buf_offs + na + nb + nc; buf_size = w.buf_size }) qd
              (omega arith),
        )
        refl

  pub read_first : (o : ℕ) (m : Memory) → read_bytes na o (written a b c d na nb nc o m) ≡ a
  read_first o m =
      read_bytes_disjoint na o (o + na + nb + nc) d _ (inl (omega arith))
      ∙ read_bytes_disjoint na o (o + na + nb) c _ (inl (omega arith))
      ∙ read_bytes_disjoint na o (o + na) b _ (inl (omega arith))
      ∙ rw (sym qa) (read_bytes-write_bytes o a m)

  pub read_second : (o : ℕ) (m : Memory) → read_bytes nb (o + na) (written a b c d na nb nc o m) ≡ b
  read_second o m =
      read_bytes_disjoint nb (o + na) (o + na + nb + nc) d _ (inl (omega arith))
      ∙ read_bytes_disjoint nb (o + na) (o + na + nb) c _ (inl (omega arith))
      ∙ rw (sym qb) (read_bytes-write_bytes (o + na) b _)

  pub read_third :
      (o : ℕ) (m : Memory) → read_bytes nc (o + na + nb) (written a b c d na nb nc o m) ≡ c
  read_third o m =
      read_bytes_disjoint nc (o + na + nb) (o + na + nb + nc) d _ (inl (omega arith))
      ∙ rw (sym qc) (read_bytes-write_bytes (o + na + nb) c _)

  pub read_fourth :
      (o : ℕ) (m : Memory) → read_bytes nd (o + na + nb + nc) (written a b c d na nb nc o m) ≡ d
  read_fourth o m = rw (sym qd) (read_bytes-write_bytes (o + na + nb + nc) d _)

  pub read_behind :
      (o : ℕ) (m : Memory) (n at : ℕ)
      → o + na + nb + nc + nd ≤ at
      → read_bytes n at (written a b c d na nb nc o m) ≡ read_bytes n at m
  read_behind o m n at h =
      read_bytes_disjoint n at (o + na + nb + nc) d _ (inr (omega arith))
      ∙ read_bytes_disjoint n at (o + na + nb) c _ (inr (omega arith))
      ∙ read_bytes_disjoint n at (o + na) b _ (inr (omega arith))
      ∙ read_bytes_disjoint n at o a m (inr (omega arith))
