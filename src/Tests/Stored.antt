-- ===== src/Tests/Stored.antt =====
-- The round trips of a table with one object, and of the metadata with it.
use cache_work.Prelude.{
  false, ℕ, ◌+◌, ◌%◌, ◌^◌, ◌<◌, ◌≤◌, ◌≡◌, refl, true, some, [], ◌∷◌, ◌++◌, arith,
}
use cache_work.Bytes.{read_bytes}
use cache_work.Bytes.Streams.{MemoryWriter}
use cache_work.RangeElem.Stored.{IsWide}
use cache_work.RangeVector.{RangeVector}
use cache_work.FsTable.{size_on_disk, full_size, data_size}
use cache_work.FsTable.Stored.{save_table, load_table}
use cache_work.FsTable.RoundTrip.{IsStorable, AreStorable, reset_nodes, save_table-load_table}
use cache_work.FsMetadata.{FsMetadataHdr, FsMetadata, is_current, md_size_on_disk}
use cache_work.FsMetadata.Stored.{save_md, load_full_md, fits_together}
use cache_work.FsMetadata.RoundTrip.{IsWideHdr, save_md-load_full_md}
use cache_work.Units.{round_to_store_block_size}
use cache_work.Tests.Data.{elem_of, two_vector, one_object, one_object-IsCounted}

abbrev page_writer : MemoryWriter
page_writer = record { buf = λ p. p % 256; buf_offs = 64; buf_size = 8192 }

abbrev address : RangeVector → ℕ
address v = 94220

IsWide-elem : (o : ℕ) → o < 2 ^ 32 → IsWide (elem_of o 10000)
IsWide-elem o h = record {
  mark_wide = omega arith;
  readers_wide = omega arith;
  size_lo_wide = omega arith;
  offset_lo_wide = h;
  disk_lo_wide = omega arith;
  size_hi_wide = omega arith;
  offset_hi_wide = omega arith;
  disk_hi_wide = omega arith;
}

two_vector-IsStorable : IsStorable two_vector
two_vector-IsStorable = record {
  marked = refl;
  wide = (IsWide-elem 0 (omega arith), (IsWide-elem 20000 (omega arith), refl));
  on_disk = (refl, (refl, refl));
}

one_object-AreStorable : AreStorable one_object.fs_nodes
one_object-AreStorable = (omega arith, two_vector-IsStorable, refl)

enough_allowed : data_size 1 2 ≤ one_object.max_allowed_data_size
unfolding data_size
enough_allowed = omega arith

enough_room : 64 + size_on_disk one_object ≤ 8192
unfolding size_on_disk full_size data_size
enough_room = omega arith

save_table-load_table_example :
    (w' : MemoryWriter) × (save_table address one_object page_writer ≡ some w')
    × (w'.buf_offs ≡ 64 + size_on_disk one_object)
    × (load_table one_object (read_bytes (size_on_disk one_object) 64 w'.buf ++ (1 ∷ 2 ∷ []))
        ≡ some (true, record one_object { fs_nodes = reset_nodes one_object.fs_nodes }, 1 ∷ 2 ∷ []))
save_table-load_table_example =
    save_table-load_table address one_object one_object page_writer (1 ∷ 2 ∷ [])
      one_object-IsCounted one_object-AreStorable enough_allowed enough_room

abbrev hdr_now : FsMetadataHdr
hdr_now = record {
  magic = 82173157688003326;
  create_time = 1500000000;
  uuid = 12345;
  version_major = 0;
  version_minor = 3;
  sync_serial = 7;
}

abbrev md_now : FsMetadata
md_now = record {
  hdr = hdr_now;
  ops = record { write_pos = 2097152; write_lap = 1 };
  table = one_object;
  ftr = hdr_now;
  is_dirty = false;
}

hdr_now-IsWideHdr : IsWideHdr hdr_now
hdr_now-IsWideHdr = record {
  magic_wide = omega arith;
  time_wide = omega arith;
  uuid_wide = omega arith;
  major_wide = omega arith;
  minor_wide = omega arith;
  serial_wide = omega arith;
}

md_now_fits : fits_together md_now.hdr md_now.ftr ≡ true
unfolding fits_together is_current
md_now_fits = refl

md_now_room : md_size_on_disk md_now < 12288
unfolding md_size_on_disk size_on_disk full_size data_size round_to_store_block_size
md_now_room = omega arith

save_md-load_full_md_example :
    (w' : MemoryWriter) × (save_md address md_now
        (record { buf = λ p. 0; buf_offs = 0; buf_size = 12288 })
      ≡ some w')
    × (w'.buf_offs ≡ md_size_on_disk md_now)
    × (load_full_md 2 md_now ((1 ∷ 2 ∷ []) ++ (read_bytes (md_size_on_disk md_now) 0 w'.buf ++ []))
        ≡ some (
          true,
          record md_now {
            table = record one_object { fs_nodes = reset_nodes one_object.fs_nodes };
          },
        ))
save_md-load_full_md_example =
    save_md-load_full_md address md_now one_object-IsCounted md_now_fits (λ p. 0) 12288 md_now_room
      (1 ∷ 2 ∷ []) [] md_now one_object-AreStorable hdr_now-IsWideHdr hdr_now-IsWideHdr
      (omega arith) (omega arith) enough_allowed (omega arith)
