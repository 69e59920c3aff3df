-- ===== src/AggWriteBlock.antt =====
-- xproxy-beta/cache/agg_write_block.cpp, agg_write_block.h and object_frag_hdr.h: the block that the
-- writer fills in memory, and its metadata. adler32 is zlib's: a parameter, with its initial value.
-- `none` is a failed assertion.
pub mod Placed
pub mod Adding
pub mod Reading
pub mod Writing
use cache_work.Prelude.{
  ℕ, ◌+◌, ◌-◌, ◌*◌, ◌/◌, ◌%◌, Bool, true, false, ◌&&◌, ◌||◌, not, ltb, leb, ◌==◌, if◌then◌else◌,
  ◌⊎◌, inl, inr, Option, none, some, ◌>>=◌, List, ◌∷◌, [], ◌++◌, length,
}
use cache_work.Units.{
  u32, u64, sub64, in_range, object_frag_size, object_frag_max_data_size, volume_block_size,
  agg_write_meta_size, agg_write_data_size, agg_write_block_size, set_from_bytes, to_bytes,
  round_to_store_block_size,
}
use cache_work.Range.{Range}
use cache_work.RangeElem.{RangeElem, rng_offset, rng_size, disk_offset, make_range_elem}
use cache_work.Bytes.{Memory, write_bytes, read_bytes, le_bytes, be_bytes}
use cache_work.Bytes.Streams.{make_memory_writer}
use cache_work.AggWriteMeta.{
  AggMetaEntry, AggWriteMeta, make_agg_write_meta, AddMetaRes, add_meta_entry, has_meta_entry,
  release_entries,
}
use cache_work.AggWriteMeta.Stored.{save}

pub record AggWriteBlock : Type 0 where
  pub block_meta : AggWriteMeta
  pub block_data : Memory
  pub buff_pos : ℕ
  pub pending_disk_write : Bool

pub data FailRes : Type 0 where
  overlaps : FailRes
  no_space_meta : FailRes
  no_space_data : FailRes

-- The blocks of the metadata, and of the whole block.
abbrev pub meta_blocks : ℕ
meta_blocks = agg_write_meta_size / volume_block_size

abbrev pub max_blocks : ℕ
max_blocks = agg_write_block_size / volume_block_size

-- The constructor, on the bytes that alloc_page_aligned gives.
unfoldable pub make_agg_write_block : Memory → Option AggWriteBlock
make_agg_write_block page = do
  m ← make_agg_write_meta agg_write_meta_size
  some (record {
    block_meta = m;
    block_data = page;
    buff_pos = meta_blocks;
    pending_disk_write = false;
  })

unfoldable pub bytes_avail : AggWriteBlock → ℕ
unfolding to_bytes
bytes_avail b = u32 (sub64 (to_bytes volume_block_size b.buff_pos) agg_write_meta_size)

unfoldable pub free_space : AggWriteBlock → ℕ
unfolding bytes_avail
free_space b = u32 (sub64 agg_write_data_size (bytes_avail b))

unfoldable pub end_disk_write : AggWriteBlock → List AggMetaEntry × AggWriteBlock
end_disk_write b =
    let r = release_entries b.block_meta in
    (r.0, record b { block_meta = r.1; buff_pos = meta_blocks; pending_disk_write = false })

-- The bytes that go to the disk, and the block.
unfoldable pub begin_disk_write : AggWriteBlock → Option (List ℕ × AggWriteBlock)
begin_disk_write b = do
  w ← make_memory_writer b.block_data agg_write_meta_size 0
  saved ← save b.block_meta w
  let sz : ℕ = round_to_store_block_size (to_bytes volume_block_size b.buff_pos)
  if leb sz agg_write_block_size
      then some (
        read_bytes sz 0 saved.buf,
        record b { block_data = saved.buf; pending_disk_write = true },
      )
      else none

unfoldable pub copy_fragment :
    RangeElem → (curr_write_offs buff_size : ℕ) → AggWriteBlock → Option (Option (List ℕ))
copy_fragment rng curr_write_offs buff_size b =
    let read_size : ℕ = object_frag_size (rng_size rng) in
    let beg_doff : ℕ = to_bytes volume_block_size curr_write_offs in
    let end_doff : ℕ = to_bytes volume_block_size (u64 (curr_write_offs + b.buff_pos)) in
    let rng_boff : ℕ = to_bytes volume_block_size (disk_offset rng) in
    let rng_eoff : ℕ = u64 (rng_boff + read_size) in
    if in_range rng_boff beg_doff end_doff && leb rng_eoff end_doff && read_size == buff_size
    then some (some (read_bytes read_size (sub64 rng_boff beg_doff) b.block_data))
    else none

-- What is copied into a buffer of `buff_size` bytes; `some none` is the answer false.
unfoldable pub try_read_fragment :
    (key : ℕ)
    → RangeElem
    → (curr_write_offs buff_size : ℕ) → AggWriteBlock
    → Option (Option (List ℕ))
try_read_fragment key rng curr_write_offs buff_size b =
    if has_meta_entry key rng b.block_meta
    then copy_fragment rng curr_write_offs buff_size b
    else some none

module _ (adler32 : ℕ → List ℕ → ℕ) (adler32_init : ℕ) where
  -- object_frag_hdr::create
  unfoldable pub create_hdr : (key : ℕ) → RangeElem → ℕ
  create_hdr key re =
      adler32
        (adler32 (adler32 (adler32 adler32_init (be_bytes 16 key)) (le_bytes 8 (rng_offset re)))
          (le_bytes 4 (rng_size re)))
        (le_bytes 8 (disk_offset re))

  -- What lies in the block for a fragment: the header and the data.
  unfoldable pub frag_bytes : (key : ℕ) → RangeElem → List ℕ → List ℕ
  frag_bytes key re frag = le_bytes 8 (create_hdr key re) ++ frag

  -- The switch on the answer of the metadata.
  unfoldable pub put_fragment :
      (key : ℕ)
      → RangeElem
      → List ℕ
      → (fin_size : ℕ) → AddMetaRes
      → AggWriteMeta
      → AggWriteBlock
      → (FailRes ⊎ RangeElem) × AggWriteBlock
  put_fragment key re frag fin_size AddMetaRes.ok m b = (
    inr re,
    record b {
      block_meta = m;
      block_data =
          write_bytes (to_bytes volume_block_size b.buff_pos) (frag_bytes key re frag) b.block_data;
      buff_pos = b.buff_pos + fin_size;
    },
  )
  put_fragment key re frag fin_size AddMetaRes.overlaps m b =
      (inl FailRes.overlaps, record b { block_meta = m })
  put_fragment key re frag fin_size AddMetaRes.no_space m b =
      (inl FailRes.no_space_meta, record b { block_meta = m })

  -- add_fragment after its assertions, with the size of the fragment in blocks.
  unfoldable pub add_blocks :
      (key : ℕ)
      → Range
      → (curr_write_offs : ℕ) → List ℕ
      → (fin_size : ℕ) → AggWriteBlock
      → Option ((FailRes ⊎ RangeElem) × AggWriteBlock)
  add_blocks key rng curr_write_offs frag fin_size b =
      if ltb max_blocks (b.buff_pos + fin_size) then some (inl FailRes.no_space_data, b) else do
        re ← make_range_elem rng.beg rng.len (u64 (curr_write_offs + b.buff_pos))
        let r = add_meta_entry key re b.block_meta
        some (put_fragment key re frag fin_size r.0 r.1 b)

  unfoldable pub add_fragment :
      (key : ℕ)
      → Range
      → (curr_write_offs : ℕ) → List ℕ
      → AggWriteBlock
      → Option ((FailRes ⊎ RangeElem) × AggWriteBlock)
  add_fragment key rng curr_write_offs frag b =
      if b.pending_disk_write
        || not (leb (length frag) object_frag_max_data_size && rng.len == length frag)
      then none
      else do
        fin_size ← set_from_bytes volume_block_size (object_frag_size (length frag))
        add_blocks key rng curr_write_offs frag fin_size b
