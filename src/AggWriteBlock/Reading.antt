-- ===== src/AggWriteBlock/Reading.antt =====
-- try_read_fragment of agg_write_block: what was added is read back.
use cache_work.Prelude.{
  ℕ, ◌+◌, ◌-◌, ◌*◌, ◌^◌, ◌≤◌, ◌<◌, ◌≡◌, ◌⊎◌, inl, inr, refl, ◌∙◌, sym, ap, true, ltb, leb, ◌==◌,
  ==_iff, some, List, length, length-append, take, arith,
}
use cache_work.Units.{
  u64, sub64, to_bytes, in_range, volume_block_size, max_volume_size, object_frag_size,
  object_frag_hdr_size,
}
use cache_work.Range.{Range}
use cache_work.RangeElem.{RangeElem, rng_size, disk_offset}
use cache_work.Bytes.{write_bytes, read_bytes, le_bytes}
use cache_work.Bytes.Laws.{
  read_bytes_disjoint, read_bytes-write_bytes, take-read_bytes, length-le_bytes,
}
use cache_work.AggWriteMeta.{entry_at, has_meta_entry}
use cache_work.AggWriteMeta.Members.{IsMember, has_meta_entry_iff, insert_at_keeps, insert_at_adds}
use cache_work.AggWriteBlock.{
  AggWriteBlock, FailRes, max_blocks, frag_bytes, create_hdr, add_fragment, copy_fragment,
  try_read_fragment,
}
use cache_work.AggWriteBlock.Placed.{frag_blocks, frag_blocks_hold, IsPlaced}
use cache_work.AggWriteBlock.Adding.{
  CanAdd, FragAnswer, data_full, meta_full, clash, added, with_fragment, add_fragment-IsPlaced,
}

-- Where the fragment of an entry lies in the block.
abbrev pub offset_in : ℕ → RangeElem → ℕ
offset_in wpos rng = (disk_offset rng - wpos) * volume_block_size

to_bytes-eq : (n : ℕ) → n < 2 ^ 55 → to_bytes volume_block_size n ≡ n * volume_block_size
unfolding to_bytes
to_bytes-eq n h = omega arith

-- The assertions hold for a fragment that lies between the two ends of the block.
copy_fragment-eq :
    (wpos : ℕ) (rng : RangeElem) (b : AggWriteBlock)
    → wpos ≤ disk_offset rng
    → 0 < object_frag_size (rng_size rng)
    → disk_offset rng * volume_block_size + object_frag_size (rng_size rng)
      ≤ (wpos + b.buff_pos) * volume_block_size
    → wpos + b.buff_pos ≤ 2 ^ 40
    → copy_fragment rng wpos (object_frag_size (rng_size rng)) b
      ≡ some (some (read_bytes (object_frag_size (rng_size rng)) (offset_in wpos rng) b.block_data))
unfolding copy_fragment in_range
copy_fragment-eq wpos rng b lo ne hi v =
    let u : u64 (wpos + b.buff_pos) ≡ wpos + b.buff_pos = omega arith in
    let o : sub64 (disk_offset rng * volume_block_size) (wpos * volume_block_size)
        ≡ offset_in wpos rng =
      omega arith in
    let w : u64 (disk_offset rng * volume_block_size + object_frag_size (rng_size rng))
        ≡ disk_offset rng * volume_block_size + object_frag_size (rng_size rng) =
      omega arith in
    let c1 : leb (wpos * volume_block_size) (disk_offset rng * volume_block_size) ≡ true =
      ground arith in
    let c2 : ltb (disk_offset rng * volume_block_size) ((wpos + b.buff_pos) * volume_block_size)
        ≡ true =
      ground arith in
    let c3 : leb (disk_offset rng * volume_block_size + object_frag_size (rng_size rng))
          ((wpos + b.buff_pos) * volume_block_size)
        ≡ true =
      ground arith in
    let c4 : (object_frag_size (rng_size rng) == object_frag_size (rng_size rng)) ≡ true =
      (==_iff _ _).1 refl in
    rw
      (
        u,
        to_bytes-eq (disk_offset rng) (omega arith),
        to_bytes-eq wpos (omega arith),
        to_bytes-eq (wpos + b.buff_pos) (omega arith),
        w,
        o,
        c1,
        c2,
        c3,
        c4,
      )
      refl

module _ (wpos : ℕ) (b : AggWriteBlock) (p : IsPlaced wpos b)
    (v : (wpos + max_blocks) * volume_block_size ≤ max_volume_size) where
  -- The place of the fragment of an entry.
  record IsInside (rng : RangeElem) : Type 0 where
    starts : wpos ≤ disk_offset rng
    size_pos : 0 < object_frag_size (rng_size rng)
    ends :
        disk_offset rng * volume_block_size + object_frag_size (rng_size rng)
        ≤ (wpos + b.buff_pos) * volume_block_size

  member-IsInside :
      (key : ℕ) (rng : RangeElem) → IsMember key rng b.block_meta.entries → IsInside rng
  member-IsInside key rng (i, l, w) =
      let (low, high) = p.placed.inside i l in
      let s = p.placed.sound i l in
      let (hold, size, blocks) =
        frag_blocks_hold (rng_size rng) (omega (arith, s.fits, w.same_size)) in
      let q : rng_size (entry_at b.block_meta.entries i).rng ≡ rng_size rng = w.same_size in
      let high' : disk_offset (entry_at b.block_meta.entries i).rng + frag_blocks (rng_size rng)
          ≤ wpos + b.buff_pos =
        rw q at high in
      record {
        starts = omega (arith, w.same_disk);
        size_pos = omega (arith, size, hold);
        ends = omega (arith, w.same_disk, size, high');
      }

  -- The search finds an entry, and the assertions on the place of its fragment hold.
  pub try_read_fragment-eq :
      (key : ℕ) (rng : RangeElem)
      → IsMember key rng b.block_meta.entries
      → try_read_fragment key rng wpos (object_frag_size (rng_size rng)) b
        ≡ some
            (some (read_bytes (object_frag_size (rng_size rng)) (offset_in wpos rng) b.block_data))
  unfolding try_read_fragment
  try_read_fragment-eq key rng e =
      let t : has_meta_entry key rng b.block_meta ≡ true =
        (has_meta_entry_iff key rng _ p.apart).1 e in
      let w = member-IsInside key rng e in
      rw t (copy_fragment-eq wpos rng b w.starts w.size_pos w.ends (omega (arith, p.fits)))

module _ (adler32 : ℕ → List ℕ → ℕ) (adler32_init : ℕ) (wpos key : ℕ) (rng : Range) (frag : List ℕ)
    (b : AggWriteBlock) (can : CanAdd wpos rng frag b) (p : IsPlaced wpos b) where
  -- A result of add_fragment is one of its answers.
  answer_of :
      (r : FailRes ⊎ RangeElem) (b' : AggWriteBlock)
      → add_fragment adler32 adler32_init key rng wpos frag b ≡ some (r, b')
      → FragAnswer adler32 adler32_init wpos key rng frag b r b' × IsPlaced wpos b'
  answer_of r b' h =
      let (r0, b0, q, a, w) =
        add_fragment-IsPlaced adler32 adler32_init wpos key rng frag b can p in
      let er : r0 ≡ r = cc in let eb : b0 ≡ b' = cc in rw (sym er, sym eb) (a, w)

  frag_bytes-length :
      (re : RangeElem)
      → length (frag_bytes adler32 adler32_init key re frag) ≡ object_frag_hdr_size + length frag
  unfolding frag_bytes
  frag_bytes-length re =
      rw
        (
          length-append (le_bytes 8 (create_hdr adler32 adler32_init key re)) frag,
          length-le_bytes 8 (create_hdr adler32 adler32_init key re),
        )
        refl

  reads_back :
      (re : RangeElem) (b' : AggWriteBlock)
      → FragAnswer adler32 adler32_init wpos key rng frag b (inr re) b'
      → IsPlaced wpos b'
      → (bs : List ℕ) × (try_read_fragment key re wpos (object_frag_size (length frag)) b'
          ≡ some (some bs))
        × (take (object_frag_hdr_size + length frag) bs
            ≡ frag_bytes adler32 adler32_init key re frag)
  reads_back re _ (added _ k le s o z d h a) w =
      let b' : AggWriteBlock = with_fragment adler32 adler32_init key re frag k b in
      let q : rng_size re ≡ length frag = z ∙ can.same_len in
      let e = insert_at_adds k (record { rng = re; key = key }) b.block_meta.entries le in
      let at : offset_in wpos re ≡ to_bytes volume_block_size b.buff_pos =
        (omega (arith, d)) ∙ sym (to_bytes-eq b.buff_pos (omega (arith, p.fits))) in
      let (hold, size, blocks) = frag_blocks_hold (length frag) can.not_too_big in
      let fb : List ℕ = frag_bytes adler32 adler32_init key re frag in
      let pos : ℕ = to_bytes volume_block_size b.buff_pos in
      let stored : read_bytes (object_frag_hdr_size + length frag) pos
            (write_bytes pos fb b.block_data)
          ≡ fb =
        rw (sym (frag_bytes-length re)) (read_bytes-write_bytes pos fb b.block_data) in
      (
        read_bytes (object_frag_size (length frag)) (offset_in wpos re) b'.block_data,
        ap (λ n. try_read_fragment key re wpos (object_frag_size n) b') (sym q)
            ∙ try_read_fragment-eq wpos b' w can.in_volume key re e
            ∙ ap
                (λ n.
                  some (some (read_bytes (object_frag_size n) (offset_in wpos re) b'.block_data)))
                q,
        take-read_bytes (object_frag_hdr_size + length frag) (object_frag_size (length frag))
              (offset_in wpos re) b'.block_data (omega (arith, hold, size))
            ∙ rw at stored,
      )

  -- The fragments that were there are where they were.
  same_fragment :
      (key' : ℕ) (rng' : RangeElem) (r : FailRes ⊎ RangeElem) (b' : AggWriteBlock)
      → IsMember key' rng' b.block_meta.entries
      → FragAnswer adler32 adler32_init wpos key rng frag b r b'
      → IsPlaced wpos b'
      → try_read_fragment key' rng' wpos (object_frag_size (rng_size rng')) b'
        ≡ try_read_fragment key' rng' wpos (object_frag_size (rng_size rng')) b
  same_fragment key' rng' _ _ e (data_full h) w = refl
  same_fragment key' rng' _ _ e (meta_full h) w = refl
  same_fragment key' rng' _ _ e (clash i l q c d) w = refl
  same_fragment key' rng' _ _ e (added re k le s o z d h a) w =
      let b' : AggWriteBlock = with_fragment adler32 adler32_init key re frag k b in
      let there = member-IsInside wpos b p can.in_volume key' rng' e in
      let pos : ℕ = to_bytes volume_block_size b.buff_pos in
      let pq : pos ≡ b.buff_pos * volume_block_size =
        to_bytes-eq b.buff_pos (omega (arith, p.fits)) in
      let low = there.starts in
      let high = there.ends in
      let before : offset_in wpos rng' + object_frag_size (rng_size rng') ≤ pos = omega arith in
      try_read_fragment-eq wpos b' w can.in_volume key' rng' (insert_at_keeps k _ _ key' rng' le e)
      ∙ ap (λ x. some (some x))
          (read_bytes_disjoint (object_frag_size (rng_size rng')) (offset_in wpos rng') pos _ _
            (inl before))
      ∙ sym (try_read_fragment-eq wpos b p can.in_volume key' rng' e)

-- Where add_fragment, on a fragment and a block that CanAdd allows and with the fragments
-- placed, returns an element, try_read_fragment for this element copies bytes that start with
-- the header and the data of the fragment.
pub add_fragment-try_read_fragment :
    (adler32 : ℕ → List ℕ → ℕ) (adler32_init : ℕ) (wpos key : ℕ) (rng : Range) (frag : List ℕ)
    (b : AggWriteBlock)
    → CanAdd wpos rng frag b
    → IsPlaced wpos b
    → (re : RangeElem) (b' : AggWriteBlock)
    → add_fragment adler32 adler32_init key rng wpos frag b ≡ some (inr re, b')
    → (bs : List ℕ) × (try_read_fragment key re wpos (object_frag_size (length frag)) b'
        ≡ some (some bs))
      × (take (object_frag_hdr_size + length frag) bs ≡ frag_bytes adler32 adler32_init key re frag)
add_fragment-try_read_fragment adler32 init wpos key rng frag b can p re b' h =
    let (a, w) = answer_of adler32 init wpos key rng frag b can p (inr re) b' h in
    reads_back adler32 init wpos key rng frag b can p re b' a w

-- Whatever add_fragment, on a fragment and a block that CanAdd allows and with the fragments
-- placed, returns, try_read_fragment gives for every element that the metadata had the same
-- answer and the same bytes as before.
pub add_fragment_keeps :
    (adler32 : ℕ → List ℕ → ℕ) (adler32_init : ℕ) (wpos key : ℕ) (rng : Range) (frag : List ℕ)
    (b : AggWriteBlock)
    → CanAdd wpos rng frag b
    → IsPlaced wpos b
    → (r : FailRes ⊎ RangeElem) (b' : AggWriteBlock)
    → add_fragment adler32 adler32_init key rng wpos frag b ≡ some (r, b')
    → (key' : ℕ) (rng' : RangeElem) → has_meta_entry key' rng' b.block_meta ≡ true
    → try_read_fragment key' rng' wpos (object_frag_size (rng_size rng')) b'
      ≡ try_read_fragment key' rng' wpos (object_frag_size (rng_size rng')) b
add_fragment_keeps adler32 init wpos key rng frag b can p r b' h key' rng' t =
    let (a, w) = answer_of adler32 init wpos key rng frag b can p r b' h in
    same_fragment adler32 init wpos key rng frag b can p key' rng' r b'
      ((has_meta_entry_iff key' rng' b.block_meta p.apart).0 t) a w
