-- ===== src/FsMetadata/Stored.antt =====
-- load and save of xproxy-beta/cache/fs_metadata.cpp. The area of the two copies is the list of its
-- bytes; a seek behind the end of the area is a failed X3ME_ENFORCE and a short read throws: `none`.
-- Where load returns false it leaves the metadata as it was. The uuid is a number of 16 bytes.
use cache_work.Prelude.{
  ℕ, ◌+◌, ◌*◌, Bool, true, false, ◌&&◌, ◌||◌, not, leb, ◌==◌, if◌then◌else◌, Option, none, some,
  ◌>>=◌, List, ◌++◌, length, take, drop,
}
use cache_work.Units.{u64, sub64, store_block_size, round_to_store_block_size}
use cache_work.Bytes.{le_bytes, of_le_bytes, be_bytes, of_be_bytes}
use cache_work.Bytes.Streams.{MemoryWriter, write, set_writer_offset, DiskReader, read_disk}
use cache_work.RangeVector.{RangeVector}
use cache_work.FsTable.{full_size, size_on_disk}
use cache_work.FsTable.Stored.{save_table, load_hdr, load_table}
use cache_work.FsMetadata.{
  FsMetadataHdr, is_current, FsOpsData, FsMetadata, hdr_ops_bytes, md_size_on_disk,
  md_max_size_on_disk, Copy, choose_copy,
}

abbrev pub md_hdr_size : ℕ
md_hdr_size = 40

abbrev pub ops_size : ℕ
ops_size = 16

unfoldable pub md_hdr_bytes : FsMetadataHdr → List ℕ
md_hdr_bytes h =
    le_bytes 8 h.magic
    ++ (le_bytes 8 h.create_time
        ++ (be_bytes 16 h.uuid
            ++ (le_bytes 2 h.version_major
                ++ (le_bytes 2 h.version_minor ++ le_bytes 4 h.sync_serial))))

abbrev part : (at n : ℕ) → List ℕ → List ℕ
part at n bs = take n (drop at bs)

unfoldable pub md_hdr_of_bytes : List ℕ → FsMetadataHdr
md_hdr_of_bytes bs = record {
  magic = of_le_bytes (part 0 8 bs);
  create_time = of_le_bytes (part 8 8 bs);
  uuid = of_be_bytes 0 (part 16 16 bs);
  version_major = of_le_bytes (part 32 2 bs);
  version_minor = of_le_bytes (part 34 2 bs);
  sync_serial = of_le_bytes (part 36 4 bs);
}

unfoldable pub ops_bytes : FsOpsData → List ℕ
ops_bytes o = le_bytes 8 o.write_pos ++ le_bytes 8 o.write_lap

unfoldable pub ops_of_bytes : List ℕ → FsOpsData
ops_of_bytes bs = record {
  write_pos = of_le_bytes (part 0 8 bs);
  write_lap = of_le_bytes (part 8 8 bs);
}

-- The check of save, and of the end of load.
unfoldable pub fits_together : FsMetadataHdr → FsMetadataHdr → Bool
fits_together hdr ftr = is_current hdr && (is_current ftr && hdr.create_time == ftr.create_time)

unfoldable pub save_md : (ptr : RangeVector → ℕ) → FsMetadata → MemoryWriter → Option MemoryWriter
save_md ptr md w =
    if not (fits_together md.hdr md.ftr)
    then none
    else write (md_hdr_bytes md.hdr) w
      >>= write (ops_bytes md.ops)
      >>= save_table ptr md.table
      >>= set_writer_offset (sub64 (md_size_on_disk md) store_block_size)
      >>= write (md_hdr_bytes md.ftr)
      >>= set_writer_offset (md_size_on_disk md)

-- disk_reader::set_next_offset
unfoldable pub set_next_offset : ℕ → (area : List ℕ) → Option DiskReader
set_next_offset offs area = if leb offs (length area) then some (drop offs area) else none

-- The check at the end of load_full_metadata.
unfoldable pub checked_md : FsMetadata → FsMetadata → Bool × FsMetadata
checked_md md loaded =
    if not (fits_together loaded.hdr loaded.ftr) then (false, md) else (true, loaded)

-- load_full_metadata; the new members replace the old ones, the dirty flag stays.
unfoldable pub load_full_md :
    (md_offs : ℕ) → FsMetadata → (area : List ℕ) → Option (Bool × FsMetadata)
load_full_md md_offs md area = set_next_offset md_offs area >>= λ r.
    read_disk md_hdr_size r >>= λ h. read_disk ops_size h.1 >>= λ o.
    load_table md.table o.1 >>= λ t.
    if not t.0
    then some (false, md)
    else set_next_offset
        (u64 (md_offs + round_to_store_block_size (u64 (hdr_ops_bytes + size_on_disk t.1)))) area
      >>= λ q. read_disk md_hdr_size q >>= λ f. some (
          checked_md md (record md {
            hdr = md_hdr_of_bytes h.0;
            ops = ops_of_bytes o.0;
            table = t.1;
            ftr = md_hdr_of_bytes f.0;
          }))

-- The offset of the footer in a copy, from the size of the table.
abbrev ftr_offs : ℕ → ℕ
ftr_offs table_data_size =
    round_to_store_block_size (u64 (hdr_ops_bytes + full_size table_data_size))

-- load_check_metadata_hdr_ftr. The header and the footer of the copy at an offset; `some none` is a
-- corrupted table.
unfoldable pub load_ends : (offs : ℕ) → (area : List ℕ) → Option (Option Copy)
load_ends offs area = set_next_offset offs area >>= λ r. read_disk md_hdr_size r >>= λ h.
    read_disk ops_size h.1 >>= λ o. load_hdr o.1 >>= λ d.
    if not d.0 || ftr_offs d.1.table_data_size == 0
    then some none
    else set_next_offset (u64 (offs + ftr_offs d.1.table_data_size)) area >>= λ q.
        read_disk md_hdr_size q >>= λ f.
        some (some (record { hdr = md_hdr_of_bytes h.0; ftr = md_hdr_of_bytes f.0 }))

unfoldable pub check_copies : (max_size : ℕ) → (area : List ℕ) → Option Copy → Option (Option ℕ)
check_copies max_size area none = some none
check_copies max_size area (some a) = load_ends max_size area >>= λ b. some (b >>= choose_copy a)

unfoldable pub load_chosen : FsMetadata → (area : List ℕ) → Option ℕ → Option (Bool × FsMetadata)
load_chosen md area none = some (false, md)
load_chosen md area (some idx) = load_full_md (u64 (idx * md_max_size_on_disk md)) md area

unfoldable pub load_md : FsMetadata → (area : List ℕ) → Option (Bool × FsMetadata)
load_md md area =
    load_ends 0 area >>= check_copies (md_max_size_on_disk md) area >>= load_chosen md area
