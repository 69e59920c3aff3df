-- ===== src/AggWriteBlock/Adding.antt =====
-- add_fragment of agg_write_block: its answers, and where it puts a fragment.
use cache_work.Prelude.{
  ℕ, ◌+◌, ◌*◌, ◌^◌, ◌≤◌, ◌<◌, ◌≡◌, ◌⊎◌, inl, inr, refl, ◌∙◌, sym, true, false, ltb, leb, ◌==◌,
  ==_iff, Bool-cases, some, List, length, insert_at, arith,
}
use cache_work.Units.{
  u64, to_bytes, volume_block_size, volume_skip_bytes, max_volume_size, max_obj_size,
  object_frag_max_data_size,
}
use cache_work.Range.{Range}
use cache_work.RangeElem.{RangeElem, rng_offset, rng_size, rng_end_offset, disk_offset}
use cache_work.RangeElem.Fields.{
  IsSound, rng_end_offset-eq, make_range_elem-fields, make_range_elem-IsSound,
  make_range_elem-total,
}
use cache_work.Bytes.{write_bytes}
use cache_work.AggWriteMeta.{AggWriteMeta, AddMetaRes, entry_at}
use cache_work.AggWriteMeta.Order.{IsApart, AddMetaOutcome, add_meta_entry-AddMetaOutcome}
use cache_work.AggWriteBlock.{
  AggWriteBlock, FailRes, max_blocks, frag_bytes, put_fragment, add_blocks, add_fragment,
}
use cache_work.AggWriteBlock.Placed.{frag_blocks, frag_blocks_hold, IsPlaced, insert_at-ArePlaced}

-- What the callers of add_fragment give: a fragment of this range, within the limits, and a block
-- in the volume that is not being written.
pub record CanAdd (wpos : ℕ) (rng : Range) (frag : List ℕ) (b : AggWriteBlock) : Type 0 where
  pub idle : b.pending_disk_write ≡ false
  pub same_len : rng.len ≡ length frag
  pub some_data : 1 ≤ length frag
  pub not_too_big : length frag ≤ object_frag_max_data_size
  pub in_object : rng.beg < max_obj_size
  pub behind_skip : volume_skip_bytes ≤ wpos * volume_block_size
  pub in_volume : (wpos + max_blocks) * volume_block_size ≤ max_volume_size

meta_same :
    (m m' : AggWriteMeta) → m'.entries ≡ m.entries → m'.max_cnt_entries ≡ m.max_cnt_entries → m' ≡ m
meta_same m m' p q = λ i. record { entries = p i; max_cnt_entries = q i }

module _ (adler32 : ℕ → List ℕ → ℕ) (adler32_init : ℕ) where
  -- The block with the fragment of `re` behind the others, and its entry at position `k`.
  abbrev pub with_fragment : (key : ℕ) → RangeElem → List ℕ → ℕ → AggWriteBlock → AggWriteBlock
  with_fragment key re frag k b = record b {
    block_meta = record b.block_meta {
      entries = insert_at k (record { rng = re; key = key }) b.block_meta.entries;
    };
    block_data =
        write_bytes (to_bytes volume_block_size b.buff_pos)
          (frag_bytes adler32 adler32_init key re frag) b.block_data;
    buff_pos = b.buff_pos + frag_blocks (length frag);
  }

  -- The answers of add_fragment, each with what it says of the block, and the block after it.
  pub data FragAnswer (wpos key : ℕ) (rng : Range) (frag : List ℕ) (b : AggWriteBlock)
      : FailRes ⊎ RangeElem → AggWriteBlock → Type 0 where
    data_full :
        max_blocks < b.buff_pos + frag_blocks (length frag)
        → FragAnswer wpos key rng frag b (inl FailRes.no_space_data) b
    meta_full :
        b.block_meta.max_cnt_entries ≤ length b.block_meta.entries
        → FragAnswer wpos key rng frag b (inl FailRes.no_space_meta) b
    clash :
        (i : ℕ)
        → i < length b.block_meta.entries
        → (entry_at b.block_meta.entries i).key ≡ key
        → rng_offset (entry_at b.block_meta.entries i).rng < rng.beg + rng.len
        → rng.beg < rng_end_offset (entry_at b.block_meta.entries i).rng
        → FragAnswer wpos key rng frag b (inl FailRes.overlaps) b
    added :
        (re : RangeElem) (k : ℕ)
        → k ≤ length b.block_meta.entries
        → IsSound re
        → rng_offset re ≡ rng.beg
        → rng_size re ≡ rng.len
        → disk_offset re ≡ wpos + b.buff_pos
        → b.buff_pos + frag_blocks (length frag) ≤ max_blocks
        → IsApart (insert_at k (record { rng = re; key = key }) b.block_meta.entries)
        → FragAnswer wpos key rng frag b (inr re) (with_fragment key re frag k b)

  module _ (wpos key : ℕ) (rng : Range) (frag : List ℕ) (b : AggWriteBlock)
      (can : CanAdd wpos rng frag b) (p : IsPlaced wpos b) where
    put_fragment-FragAnswer :
        (re : RangeElem)
        → IsSound re
        → rng_offset re ≡ rng.beg
        → rng_size re ≡ rng.len
        → disk_offset re ≡ wpos + b.buff_pos
        → b.buff_pos + frag_blocks (length frag) ≤ max_blocks
        → (r : AddMetaRes) (m : AggWriteMeta) → AddMetaOutcome key re b.block_meta r m
        → FragAnswer wpos key rng frag b
            (put_fragment adler32 adler32_init key re frag (frag_blocks (length frag)) r m b).0
            (put_fragment adler32 adler32_init key re frag (frag_blocks (length frag)) r m b).1
    unfolding put_fragment
    put_fragment-FragAnswer re s o z d h r m out = elim out.answer [
      | inl (q, l, (k, le, w)) ↦
          let mq : m ≡ record b.block_meta {
            entries = insert_at k (record { rng = re; key = key }) b.block_meta.entries;
          } =
            meta_same _ m w out.same_max in
          rw (q, mq) (added re k le s o z d h (rw (sym w) out.apart))
      | inr (inl (q, w, (i, l, (c1, c2, c3)))) ↦
          let mq : m ≡ b.block_meta = meta_same _ m w out.same_max in
          rw (q, mq) (clash i l c1 (omega (arith, rng_end_offset-eq re s)) (omega arith))
      | inr (inr (q, w, l)) ↦
          let mq : m ≡ b.block_meta = meta_same _ m w out.same_max in rw (q, mq) (meta_full l)
    ]

    add_blocks-FragAnswer :
        (r : FailRes ⊎ RangeElem) × (b' : AggWriteBlock) × (add_blocks adler32 adler32_init key rng
            wpos frag
            (frag_blocks (length frag))
            b
          ≡ some (r, b'))
        × FragAnswer wpos key rng frag b r b'
    unfolding add_blocks
    add_blocks-FragAnswer =
        let pos : ℕ = wpos + b.buff_pos in
        let wrap : u64 pos ≡ pos = omega (arith, can.in_volume, p.fits) in
        elim (Bool-cases (ltb max_blocks (b.buff_pos + frag_blocks (length frag)))) [
          | inl t ↦ rw t (inl FailRes.no_space_data, b, refl, data_full (ground arith))
          | inr f ↦
              let room : b.buff_pos + frag_blocks (length frag) ≤ max_blocks = ground arith in
              let made =
                make_range_elem-total rng.beg rng.len pos can.in_object
                  (omega (arith, can.same_len, can.some_data))
                  (omega (arith, can.same_len, can.not_too_big)) (omega (arith, can.behind_skip))
                  (omega (
                    arith,
                    can.in_volume,
                    p.fits,
                    can.some_data,
                    frag_blocks_hold (length frag) can.not_too_big,
                  )) in
              let small : pos < 2 ^ 55 = omega (arith, can.in_volume, p.fits) in
              let (o, z, d, c, i) = make_range_elem-fields rng.beg rng.len pos small made in
              let s = make_range_elem-IsSound rng.beg rng.len pos small made in
              rw (f, wrap, made)
                (
                  _,
                  _,
                  refl,
                  put_fragment-FragAnswer _ s o z d room _ _ (
                      add_meta_entry-AddMetaOutcome key _ b.block_meta
                        (omega (arith, rng_end_offset-eq _ s)) p.apart),
                )
        ]

    add_fragment-FragAnswer :
        (r : FailRes ⊎ RangeElem) × (b' : AggWriteBlock) × (add_fragment adler32 adler32_init key
            rng wpos frag b
          ≡ some (r, b'))
        × FragAnswer wpos key rng frag b r b'
    unfolding add_fragment
    add_fragment-FragAnswer =
        let (hold, size, blocks) = frag_blocks_hold (length frag) can.not_too_big in
        let t : leb (length frag) object_frag_max_data_size ≡ true =
          ground (arith, can.not_too_big) in
        let u : (rng.len == length frag) ≡ true = (==_iff _ _).1 can.same_len in
        simp (can.idle, t, u, blocks) add_blocks-FragAnswer

    -- Whatever add_fragment answers, the fragments are placed as before.
    FragAnswer-IsPlaced :
        (r : FailRes ⊎ RangeElem) (b' : AggWriteBlock)
        → FragAnswer wpos key rng frag b r b'
        → IsPlaced wpos b'
    FragAnswer-IsPlaced _ _ (data_full h) = p
    FragAnswer-IsPlaced _ _ (meta_full h) = p
    FragAnswer-IsPlaced _ _ (clash i l q c d) = p
    FragAnswer-IsPlaced _ _ (added re k le s o z d h a) =
        let q : rng_size re ≡ length frag = z ∙ can.same_len in
        record {
          apart = a;
          behind_meta = omega (arith, p.behind_meta);
          fits = h;
          placed = rw (sym q) (
              insert_at-ArePlaced wpos b.buff_pos k (record { rng = re; key = key }) _ le p.placed
                p.behind_meta s d);
        }

  -- On a fragment and a block that CanAdd allows, with the fragments placed, add_fragment does
  -- not abort, gives one of the answers of FragAnswer with what each says, and keeps the
  -- fragments placed.
  pub add_fragment-IsPlaced :
      (wpos key : ℕ) (rng : Range) (frag : List ℕ) (b : AggWriteBlock)
      → CanAdd wpos rng frag b
      → IsPlaced wpos b
      → (r : FailRes ⊎ RangeElem) × (b' : AggWriteBlock) × (add_fragment adler32 adler32_init key
            rng wpos frag b
          ≡ some (r, b'))
        × FragAnswer wpos key rng frag b r b'
        × IsPlaced wpos b'
  add_fragment-IsPlaced wpos key rng frag b can p =
      let (r, b', q, a) = add_fragment-FragAnswer wpos key rng frag b can p in
      (r, b', q, a, FragAnswer-IsPlaced wpos key rng frag b can p r b' a)
