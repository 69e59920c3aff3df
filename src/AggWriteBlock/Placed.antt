-- ===== src/AggWriteBlock/Placed.antt =====
-- Where the fragments of a block lie: inside it, behind its metadata, and apart from each other.
use cache_work.Prelude.{
  ℕ, ◌+◌, ◌-◌, ◌*◌, ◌/◌, ◌≤◌, ◌<◌, ◌≡◌, ◌⊎◌, inl, inr, refl, some, List, [], length, insert_at,
  length-insert_at, arith,
}
use cache_work.Units.{
  object_frag_size, object_frag_hdr_size, object_frag_max_data_size, volume_block_size,
  set_from_bytes,
}
use cache_work.Units.Rounding.{object_frag_size_bounds}
use cache_work.RangeElem.{rng_size, disk_offset}
use cache_work.RangeElem.Fields.{IsSound}
use cache_work.Bytes.{Memory}
use cache_work.AggWriteMeta.{AggMetaEntry, entry_at, make_agg_write_meta, release_entries}
use cache_work.AggWriteMeta.Order.{IsApart, entry_at-insert_at}
use cache_work.AggWriteBlock.{
  AggWriteBlock, meta_blocks, max_blocks, make_agg_write_block, end_disk_write,
}

-- The blocks of a fragment with `n` bytes of data.
abbrev pub frag_blocks : ℕ → ℕ
frag_blocks n = object_frag_size n / volume_block_size

pub frag_blocks_hold :
    (n : ℕ)
    → n ≤ object_frag_max_data_size
    → (object_frag_hdr_size + n ≤ frag_blocks n * volume_block_size)
      × (object_frag_size n ≡ frag_blocks n * volume_block_size)
      × (set_from_bytes volume_block_size (object_frag_size n) ≡ some (frag_blocks n))
unfolding set_from_bytes
frag_blocks_hold n h =
    let (a, b, c) = object_frag_size_bounds n h in (omega arith, omega arith, rw c refl)

-- The first block of an entry, and the first one behind it.
abbrev pub first_block : AggMetaEntry → ℕ
first_block e = disk_offset e.rng

abbrev pub end_block : AggMetaEntry → ℕ
end_block e = disk_offset e.rng + frag_blocks (rng_size e.rng)

pub record ArePlaced (wpos end : ℕ) (xs : List AggMetaEntry) : Type 0 where
  pub sound : (i : ℕ) → i < length xs → IsSound (entry_at xs i).rng
  pub inside :
      (i : ℕ)
      → i < length xs
      → (wpos + meta_blocks ≤ first_block (entry_at xs i))
        × (end_block (entry_at xs i) ≤ wpos + end)
  pub disjoint :
      (i j : ℕ)
      → i < j
      → j < length xs
      → (end_block (entry_at xs i) ≤ first_block (entry_at xs j))
        ⊎ (end_block (entry_at xs j) ≤ first_block (entry_at xs i))

-- The state of a block that is to be written at block `wpos` of the volume.
pub record IsPlaced (wpos : ℕ) (b : AggWriteBlock) : Type 0 where
  pub apart : IsApart b.block_meta.entries
  pub behind_meta : meta_blocks ≤ b.buff_pos
  pub fits : b.buff_pos ≤ max_blocks
  pub placed : ArePlaced wpos b.buff_pos b.block_meta.entries

-- A fragment that goes behind all others.
pub insert_at-ArePlaced :
    (wpos end k : ℕ) (e : AggMetaEntry) (xs : List AggMetaEntry)
    → k ≤ length xs
    → ArePlaced wpos end xs
    → meta_blocks ≤ end
    → IsSound e.rng
    → disk_offset e.rng ≡ wpos + end
    → ArePlaced wpos (end + frag_blocks (rng_size e.rng)) (insert_at k e xs)
insert_at-ArePlaced wpos end k e xs h p low s at = record {
  sound = λ i b. elim (entry_at-insert_at k e xs i h) [
    | inl (c, q) ↦ rw q (p.sound i (omega arith))
    | inr (inl (c, q)) ↦ rw q s
    | inr (inr (c, q)) ↦ rw q (p.sound (i - 1) (omega (arith, length-insert_at k e xs)))
  ];
  inside = λ i b. elim (entry_at-insert_at k e xs i h) [
    | inl (c, q) ↦ rw q (ground (arith, p.inside i))
    | inr (inl (c, q)) ↦ rw q (omega arith, omega arith)
    | inr (inr (c, q)) ↦ rw q (ground (arith, p.inside (i - 1), length-insert_at k e xs))
  ];
  disjoint = λ i j l b. ground (
    arith,
    entry_at-insert_at k e xs i h,
    entry_at-insert_at k e xs j h,
    length-insert_at k e xs,
    p.disjoint i j,
    p.disjoint i (j - 1),
    p.disjoint (i - 1) (j - 1),
    p.inside i,
    p.inside (j - 1),
  );
}

empty-ArePlaced : (wpos end : ℕ) → ArePlaced wpos end []
empty-ArePlaced wpos end = record {
  sound = λ i b. absurd (omega arith);
  inside = λ i b. absurd (omega arith);
  disjoint = λ i j l b. absurd (omega arith);
}

empty-IsPlaced :
    (wpos : ℕ) (b : AggWriteBlock)
    → b.block_meta.entries ≡ []
    → b.buff_pos ≡ meta_blocks
    → IsPlaced wpos b
empty-IsPlaced wpos b q p = record {
  apart = rw q (record {
    nonempty = λ i b. absurd (omega arith);
    ordered = λ i j l b. absurd (omega arith);
  });
  behind_meta = rw p (omega arith);
  fits = rw p (omega arith);
  placed = rw q (empty-ArePlaced wpos b.buff_pos);
}

-- The constructor does not abort, and the block it makes is placed at any block of the volume.
pub make-IsPlaced :
    (wpos : ℕ) (page : Memory)
    → (b : AggWriteBlock) × (make_agg_write_block page ≡ some b) × IsPlaced wpos b
unfolding make_agg_write_block make_agg_write_meta
make-IsPlaced wpos page = (_, refl, empty-IsPlaced wpos _ refl refl)

-- After end_disk_write the block is placed at any block of the volume.
pub end_disk_write-IsPlaced : (wpos : ℕ) (b : AggWriteBlock) → IsPlaced wpos (end_disk_write b).1
unfolding end_disk_write release_entries
end_disk_write-IsPlaced wpos b = empty-IsPlaced wpos _ refl refl
