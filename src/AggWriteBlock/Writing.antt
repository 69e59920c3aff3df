-- ===== src/AggWriteBlock/Writing.antt =====
-- begin_disk_write of agg_write_block: what goes to the disk can be loaded, and can still be read.
use cache_work.Prelude.{
  ℕ, suc, ◌+◌, ◌*◌, ◌≤◌, ◌<◌, ◌≡◌, refl, ◌∙◌, sym, true, false, leb, some, List, [], ◌∷◌, length,
  arith,
}
use cache_work.Units.{
  volume_block_size, max_volume_size, agg_write_meta_size, agg_write_block_size, to_bytes,
  round_to_store_block_size, object_frag_size,
}
use cache_work.RangeElem.{RangeElem, rng_offset, rng_end_offset, rng_size}
use cache_work.Bytes.{Memory, read_bytes}
use cache_work.Bytes.Streams.{MemoryReader, MemoryWriter, make_memory_writer}
use cache_work.AggWriteMeta.{
  AggMetaEntry, AggWriteMeta, meta_entry_bytes, entry_less, has_meta_entry,
}
use cache_work.AggWriteMeta.Order.{IsApart, Before}
use cache_work.AggWriteMeta.Stored.{is_sorted, load}
use cache_work.AggWriteMeta.RoundTrip.{AreWide, save-load}
use cache_work.AggWriteMeta.Members.{has_meta_entry_iff, IsMember}
use cache_work.AggWriteBlock.{AggWriteBlock, max_blocks, begin_disk_write, try_read_fragment}
use cache_work.AggWriteBlock.Placed.{IsPlaced}
use cache_work.AggWriteBlock.Reading.{offset_in, try_read_fragment-eq}

-- Entries that are apart are sorted as load wants them.
tail-IsApart : (x : AggMetaEntry) (xs : List AggMetaEntry) → IsApart (x ∷ xs) → IsApart xs
tail-IsApart x xs s = record {
  nonempty = λ i b. s.nonempty (suc i) (omega arith);
  ordered = λ i j l b. s.ordered (suc i) (suc j) (omega arith) (omega arith);
}

Before-entry_less :
    (a b : AggMetaEntry)
    → rng_offset a.rng < rng_end_offset a.rng
    → Before a b
    → entry_less b a ≡ false
unfolding entry_less
Before-entry_less a b h l = ground arith

pub IsApart-is_sorted : (xs : List AggMetaEntry) → IsApart xs → is_sorted xs ≡ true
unfolding is_sorted
IsApart-is_sorted [] s = refl
IsApart-is_sorted (x ∷ []) s = refl
IsApart-is_sorted (x ∷ (y ∷ xs)) s =
    rw
      (Before-entry_less x y (s.nonempty 0 (omega arith))
        (s.ordered 0 1 (omega arith) (omega arith)))
      (IsApart-is_sorted (y ∷ xs) (tail-IsApart x (y ∷ xs) s))

-- The part of the block that is written fits into it.
written_size :
    (wpos : ℕ) (b : AggWriteBlock)
    → IsPlaced wpos b
    → leb (round_to_store_block_size (to_bytes volume_block_size b.buff_pos)) agg_write_block_size
      ≡ true
unfolding round_to_store_block_size to_bytes
written_size wpos b p = let h = p.fits in let l = p.behind_meta in ground arith

module _ (wpos : ℕ) (b : AggWriteBlock) (p : IsPlaced wpos b) where
  -- The metadata lies before the fragments.
  same_reads :
      (data' : Memory)
      → ((n at : ℕ)
          → agg_write_meta_size ≤ at
          → read_bytes n at data' ≡ read_bytes n at b.block_data)
      → (wpos + max_blocks) * volume_block_size ≤ max_volume_size
      → (key : ℕ) (rng : RangeElem) → has_meta_entry key rng b.block_meta ≡ true
      → try_read_fragment key rng wpos
          (object_frag_size (rng_size rng))
          (record b { block_data = data'; pending_disk_write = true })
        ≡ try_read_fragment key rng wpos (object_frag_size (rng_size rng)) b
  same_reads data' same v key rng h =
      let e : IsMember key rng b.block_meta.entries =
        (has_meta_entry_iff key rng b.block_meta p.apart).0 h in
      let p' : IsPlaced wpos (record b { block_data = data'; pending_disk_write = true }) = record {
        apart = p.apart;
        behind_meta = p.behind_meta;
        fits = p.fits;
        placed = p.placed;
      } in
      let (i, l, w) = e in
      let (low, high) = p.placed.inside i l in
      try_read_fragment-eq wpos _ p' v key rng e
      ∙ rw
          (same (object_frag_size (rng_size rng)) (offset_in wpos rng) (omega (arith, w.same_disk)))
          refl
      ∙ sym (try_read_fragment-eq wpos b p v key rng e)

-- The block of the metadata, as the reader of the next start sees it.
abbrev pub meta_reader : AggWriteBlock → MemoryReader
meta_reader b = record { buf = b.block_data; buf_offs = 0; buf_size = agg_write_meta_size }

-- On a block in the volume with the fragments placed, whose entries are in the range of their
-- types and fit into the space of the metadata, begin_disk_write does not abort and marks the
-- block. From the block that it leaves, load gives true and the same entries, to any metadata
-- that may hold so many, and the fragments are read as before.
pub begin_disk_write-load :
    (wpos : ℕ) (b : AggWriteBlock) (m0 : AggWriteMeta)
    → IsPlaced wpos b
    → (wpos + max_blocks) * volume_block_size ≤ max_volume_size
    → AreWide b.block_meta.entries
    → 20 + length b.block_meta.entries * meta_entry_bytes ≤ agg_write_meta_size
    → length b.block_meta.entries ≤ m0.max_cnt_entries
    → (bytes : List ℕ) × (b' : AggWriteBlock) × (begin_disk_write b ≡ some (bytes, b'))
      × (b'.pending_disk_write ≡ true)
      × (load m0 (meta_reader b') ≡ some (true, record m0 { entries = b.block_meta.entries }))
      × ((key : ℕ) (rng : RangeElem)
          → has_meta_entry key rng b.block_meta ≡ true
          → try_read_fragment key rng wpos (object_frag_size (rng_size rng)) b'
            ≡ try_read_fragment key rng wpos (object_frag_size (rng_size rng)) b)
unfolding begin_disk_write make_memory_writer
begin_disk_write-load wpos b m0 p v wide room le =
    let w : MemoryWriter = record {
      buf = b.block_data;
      buf_offs = 0;
      buf_size = agg_write_meta_size;
    } in
    let (w', q, end, back, behind) =
      save-load b.block_meta m0 w (omega arith) le wide
        (IsApart-is_sorted b.block_meta.entries p.apart) (omega arith) in
    let sz : ℕ = round_to_store_block_size (to_bytes volume_block_size b.buff_pos) in
    let b' : AggWriteBlock = record b { block_data = w'.buf; pending_disk_write = true } in
    (
      read_bytes sz 0 w'.buf,
      b',
      rw (q, written_size wpos b p) refl,
      refl,
      back,
      same_reads wpos b p w'.buf (λ n at h. behind n at (omega arith)) v,
    )
