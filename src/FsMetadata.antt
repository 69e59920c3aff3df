-- ===== src/FsMetadata.antt =====
-- xproxy-beta/cache/fs_metadata.cpp, fs_metadata.h, fs_metadata_hdr.h and fs_ops_data.h: the metadata of
-- a volume, its two copies on the disk, and the write position. The clock and the generator of uuids
-- are arguments of clean_init. The serial number is a uint32_t, write_pos and write_lap are uint64_t.
pub mod WritePos
pub mod Copies
pub mod Table
pub mod Removed
pub mod Stored
pub mod RoundTrip
use cache_work.Prelude.{
  ℕ, ◌+◌, ◌-◌, ◌*◌, ◌%◌, Bool, true, false, ◌&&◌, ◌||◌, not, ltb, leb, ◌==◌, if◌then◌else◌, Option,
  none, some, ◌>>=◌, List,
}
use cache_work.Units.{u64, u32, in_range, agg_write_block_size, round_to_store_block_size}
use cache_work.RangeElem.{RangeElem, rng_size}
use cache_work.RangeVector.{RangeVector, elems, at, size, find_exact_elem}
use cache_work.RangeVector.Update.{rem_range}
use cache_work.FsTable.{
  FsTable, AddRes, add_entry, rem_entries, modify_entries, size_on_disk, max_size_on_disk,
}

pub record FsMetadataHdr : Type 0 where
  pub magic : ℕ
  pub create_time : ℕ
  pub uuid : ℕ
  pub version_major : ℕ
  pub version_minor : ℕ
  pub sync_serial : ℕ

abbrev pub current_magic : ℕ
current_magic = 82173157688003326

-- The header of a new file system, at a time and with a fresh uuid.
unfoldable pub hdr_clean_init : (now uuid : ℕ) → FsMetadataHdr
hdr_clean_init now uuid = record {
  magic = current_magic;
  create_time = now;
  uuid = uuid;
  version_major = 0;
  version_minor = 3;
  sync_serial = 0;
}

unfoldable pub is_current : FsMetadataHdr → Bool
is_current h = h.magic == current_magic && (h.version_major == 0 && h.version_minor == 3)

unfoldable pub hdr_inc_sync_serial : FsMetadataHdr → FsMetadataHdr
hdr_inc_sync_serial h = record h { sync_serial = u32 (h.sync_serial + 1) }

unfoldable pub hdr_dec_sync_serial : FsMetadataHdr → FsMetadataHdr
hdr_dec_sync_serial h = record h { sync_serial = u32 (h.sync_serial + 4294967295) }

pub record FsOpsData : Type 0 where
  pub write_pos : ℕ
  pub write_lap : ℕ

unfoldable pub ops_inc_write_pos : ℕ → FsOpsData → FsOpsData
ops_inc_write_pos bytes o = record o { write_pos = u64 (o.write_pos + bytes) }

unfoldable pub ops_wrap_write_pos : ℕ → FsOpsData → FsOpsData
ops_wrap_write_pos init_write_pos o = record {
  write_pos = init_write_pos;
  write_lap = u64 (o.write_lap + 1);
}

pub record FsMetadata : Type 0 where
  pub hdr : FsMetadataHdr
  pub ops : FsOpsData
  pub table : FsTable
  pub ftr : FsMetadataHdr
  pub is_dirty : Bool

-- The table has the operation of the same name.
unfoldable pub md_clean_init : (now uuid init_data_offs : ℕ) → FsTable → FsMetadata
md_clean_init now uuid init_data_offs empty = record {
  hdr = hdr_clean_init now uuid;
  ops = record { write_pos = init_data_offs; write_lap = 0 };
  table = empty;
  ftr = hdr_clean_init now uuid;
  is_dirty = false;
}

unfoldable pub inc_sync_serial : FsMetadata → FsMetadata
inc_sync_serial m = record m { hdr = hdr_inc_sync_serial m.hdr; ftr = hdr_inc_sync_serial m.hdr }

unfoldable pub dec_sync_serial : FsMetadata → FsMetadata
dec_sync_serial m = record m { hdr = hdr_dec_sync_serial m.hdr; ftr = hdr_dec_sync_serial m.hdr }

unfoldable pub inc_write_pos : ℕ → FsMetadata → FsMetadata
inc_write_pos pos m = record m { ops = ops_inc_write_pos pos m.ops; is_dirty = true }

unfoldable pub wrap_write_pos : ℕ → FsMetadata → FsMetadata
wrap_write_pos init_write_pos m = record m {
  ops = ops_wrap_write_pos init_write_pos m.ops;
  is_dirty = true;
}

unfoldable pub add_table_entry :
    ℕ → RangeElem → (List RangeElem → RangeElem → Bool) → FsMetadata → Option (AddRes × FsMetadata)
add_table_entry key rng overwrite m = add_entry key rng overwrite m.table >>= λ r.
    some (r.0, record m { table = r.1; is_dirty = true })

unfoldable pub rem_table_entries :
    ℕ → (RangeVector → RangeVector × ℕ) → FsMetadata → Option (Option ℕ × FsMetadata)
rem_table_entries key rem m =
    rem_entries key rem m.table >>= λ r. some (r.0, record m { table = r.1; is_dirty = true })

unfoldable pub modify_table_entries :
    ℕ → (RangeVector → RangeVector) → FsMetadata → Bool × FsMetadata
modify_table_entries key modifier m =
    let r = modify_entries key modifier m.table in (r.0, record m { table = r.1 })

-- The remover that rem_table_entry hands to rem_table_entries.
unfoldable pub rem_exact : RangeElem → RangeVector → RangeVector × ℕ
rem_exact rng v =
    let found = find_exact_elem (elems v) rng in
    if found == size v then (v, 0) else (
      (rem_range (record { first = found; last = found + 1 }) v).0,
      rng_size (at (elems v) found),
    )

abbrev pub removed_some : Option ℕ → Bool
removed_some none = false
removed_some (some n) = ltb 0 n

unfoldable pub rem_table_entry : ℕ → RangeElem → FsMetadata → Option (Bool × FsMetadata)
rem_table_entry key rng m =
    rem_table_entries key (rem_exact rng) m >>= λ r. some (removed_some r.0, r.1)

-- sizeof(fs_metadata_hdr) + sizeof(fs_ops_data); the footer fills a block of its own.
abbrev pub hdr_ops_bytes : ℕ
hdr_ops_bytes = 56

unfoldable pub md_size_on_disk : FsMetadata → ℕ
md_size_on_disk m = u64 (
    round_to_store_block_size (u64 (hdr_ops_bytes + size_on_disk m.table))
    + round_to_store_block_size 40)

unfoldable pub md_max_size_on_disk : FsMetadata → ℕ
md_max_size_on_disk m = u64 (
    round_to_store_block_size (u64 (hdr_ops_bytes + max_size_on_disk m.table))
    + round_to_store_block_size 40)

-- One copy of the metadata on the disk, as load_check_metadata_hdr_ftr reads it.
pub record Copy : Type 0 where
  pub hdr : FsMetadataHdr
  pub ftr : FsMetadataHdr

abbrev pub all_current : Copy → Copy → Bool
all_current a b =
    is_current a.hdr
    && is_current a.ftr
    && is_current b.hdr
    && is_current b.ftr
    && a.hdr.uuid == a.ftr.uuid
    && b.hdr.uuid == b.ftr.uuid

abbrev pub has_both_ends : Copy → Bool
has_both_ends c = c.hdr.sync_serial == c.ftr.sync_serial

-- load_check_metadata_hdr_ftr behind its reads: 0 for A, 1 for B, `none` for -1.
unfoldable pub choose_copy : Copy → Copy → Option ℕ
choose_copy a b =
    if not (all_current a b)
    then none
    else if has_both_ends a && (leb b.hdr.sync_serial a.hdr.sync_serial || not (has_both_ends b))
    then some 0
    else if has_both_ends b
    then some 1
    else none

-- go_to_next_wr_pos of cache_fs_operations.cpp.
unfoldable pub go_to_next_wr_pos : (data_offs end_data_offs : ℕ) → FsMetadata → FsMetadata
go_to_next_wr_pos data_offs end_data_offs md =
    if leb (u64 (md.ops.write_pos + 2 * agg_write_block_size)) end_data_offs
    then inc_write_pos agg_write_block_size md
    else wrap_write_pos data_offs md

-- The lambda of vmtx_lock_shared: whether a read at the disk offset may meet the writer.
unfoldable pub lock_needed : (doff eoff wpos disk_offset : ℕ) → Bool
lock_needed doff eoff wpos disk_offset =
    let vpos : ℕ = u64 (wpos + 3 * agg_write_block_size) in
    if leb vpos eoff
    then in_range disk_offset wpos vpos
    else in_range disk_offset doff (u64 (doff + vpos % eoff)) || in_range disk_offset wpos eoff
