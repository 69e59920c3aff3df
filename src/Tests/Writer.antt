-- ===== src/Tests/Writer.antt =====
-- The theorems on the writer and on the service that runs it, at a volume with one fragment.
use cache_work.Prelude.{◌≡◌, ◌⊎◌, refl, Bool, true, false, Option, none, some, List, [], ◌∷◌}
use cache_work.Units.{to_bytes, in_range, range_in_range, object_frag_size}
use cache_work.Bytes.{Memory, of_le_bytes, read_bytes, le_bytes, be_bytes, of_be_bytes, write_bytes}
use cache_work.Bytes.Streams.{MemoryWriter, read, write}
use cache_work.AggWriteMeta.{AggMetaEntry, make_agg_write_meta, entry_less}
use cache_work.AggWriteMeta.Stored.{
  save, load, load_count, load_entries, load_footer, entries_bytes, entry_bytes, entries_of_bytes,
  entry_of_bytes, is_sorted,
}
use cache_work.FsOperations.Writes.{
  fsmd_rem_non_evac_frags, keep_in_area, in_area, evac_loop, evac_key, evac_rem, evac_group,
  evac_step,
}
use cache_work.AggWriter.{
  call_rem_non_evac, split_abort, ev_io_begin, begin_md_read, Writer, FsOps, begin_s,
  async_md_read1, async_md_read2, async_evac1, wait_write, async_flush1, read_op, start,
  on_begin_io_op, on_end_io_op, ev_io_done, on_md_read, is_empty_list, md_loaded, sort_entries,
  insert_entry, process_defr_event, ev_do_next, enqueue_aio_op,
}
use cache_work.RangeElem.Stored.{range_elem_bytes, elem_of_bytes}
use cache_work.RangeElem.{
  RangeElem, has_readers, valid_range_elem, disk_offset, disk_end_offset, rng_offset, rng_size,
  rng_end_offset,
}
use cache_work.Range.{is_valid_frag}
use cache_work.AggWriter.Ready.{IsFsOps, AreEvacuable}
use cache_work.AggWriter.Filtered.{fsmd_rem_non_evac_frags-AreEvacuable, area_offs, area_size}
use cache_work.AggWriter.Runs.{
  Call, begins, ends, call, Run, started, called, IsFresh, IsAllowed, Run-goes_on, returned,
  operation_aborted, alive_or, outcome_of, outcome, is_running,
}
use cache_work.AggWriter.VolumeOps.{
  VolumeState, volume_ops, volume_rem_non_evac, volume_ops-IsFsOps,
}
use cache_work.RangeVector.{single, find_exact_elem, lower_bound}
use cache_work.FsMetadata.{FsMetadata, FsMetadataHdr}
use cache_work.AggWriter.Evacuating.{io_rounds, evacuation_ends}
use cache_work.FsTable.{
  FsTable, find, put, rem_entries, rem_found, calc_dec_cnt_ranges, on_dec_entries,
}
use cache_work.Tests.Data.{elem_of, one_object, one_object-IsCounted}
use cache_work.Tests.WriteBlock.{sum_bytes, one_meta, one_entry, first_elem}

-- The operations of a volume with one object, of which someone reads the fragment that the block at
-- the write position holds.
abbrev read_elem : RangeElem
read_elem = record first_elem { cnt_readers = 1 }

abbrev hdr_now : FsMetadataHdr
hdr_now = record {
  magic = 82173157688003326;
  create_time = 1500000000;
  uuid = 12345;
  version_major = 0;
  version_minor = 3;
  sync_serial = 7;
}

abbrev read_md : FsMetadata
read_md = record {
  hdr = hdr_now;
  ops = record { write_pos = 2097152; write_lap = 1 };
  table = record {
    max_allowed_data_size = 4096;
    cnt_ranges = 0;
    cnt_entries = 1;
    entries_data_size = 1000;
    fs_nodes = (7, single read_elem) ∷ [];
  };
  ftr = hdr_now;
  is_dirty = false;
}

abbrev volume : VolumeState
volume = record {
  md = read_md;
  awb = record {
    block_meta = record { entries = []; max_cnt_entries = 127 };
    block_data = λ p. 0;
    buff_pos = 8;
    pending_disk_write = false;
  };
}

abbrev some_ops : FsOps VolumeState
some_ops = volume_ops sum_bytes 1 8192 20000000 true

some_ops-IsFsOps : IsFsOps some_ops
some_ops-IsFsOps = volume_ops-IsFsOps sum_bytes 1 8192 20000000 true refl

abbrev new_writer : Writer VolumeState
new_writer = record {
  sm = begin_s;
  defr = false;
  queued = false;
  evac_meta = [];
  pend_data = none;
  write_pos = 4096;
  is_first_lap = false;
  finished_trans = [];
  op = read_op;
  aio_size = 0;
  aio_offs = 0;
  last_flush_done = false;
  fs = some volume;
}

new_writer-IsFresh : IsFresh new_writer
new_writer-IsFresh = record {
  at_begin = refl;
  no_defr = refl;
  no_task = refl;
  no_evac = refl;
  no_pend = refl;
}

abbrev queued_writer : Writer VolumeState
queued_writer = record new_writer { sm = async_md_read1; queued = true }

abbrev reading_writer : Writer VolumeState
reading_writer = record new_writer { sm = async_md_read2; aio_size = 4096; aio_offs = 2097152 }

abbrev evac_writer : Writer VolumeState
evac_writer = record reading_writer {
  sm = async_evac1;
  queued = true;
  evac_meta = one_entry;
  fs = some (record volume { md = record read_md { is_dirty = true } });
}

buf_of : Option MemoryWriter → Memory
buf_of none = λ p. 0
buf_of (some w) = w.buf

disk_block : Memory
disk_block = buf_of (save one_meta (record { buf = λ p. 0; buf_offs = 0; buf_size = 4096 }))

begun_ok : outcome_of (start some_ops sum_bytes 1 new_writer) ≡ returned queued_writer
unfolding outcome_of alive_or start ev_do_next enqueue_aio_op
begun_ok = refl

read_ok : outcome some_ops sum_bytes 1 begins queued_writer ≡ returned reading_writer
unfolding outcome_of alive_or call on_begin_io_op ev_io_begin begin_md_read to_bytes
read_ok = refl

evac_ok : outcome some_ops sum_bytes 1 (ends false disk_block) reading_writer ≡ returned evac_writer
unfolding outcome_of alive_or call_rem_non_evac split_abort volume_rem_non_evac
    fsmd_rem_non_evac_frags evac_loop evac_key evac_rem evac_group evac_step find_exact_elem
    lower_bound has_readers rem_entries find put rem_found calc_dec_cnt_ranges on_dec_entries call
    on_end_io_op disk_block buf_of ev_io_done on_md_read is_empty_list md_loaded sort_entries
    insert_entry process_defr_event ev_do_next enqueue_aio_op make_agg_write_meta entry_less save
    load load_count load_entries load_footer entries_bytes entry_bytes entries_of_bytes
    entry_of_bytes is_sorted read write of_le_bytes read_bytes le_bytes be_bytes of_be_bytes
    write_bytes range_elem_bytes elem_of_bytes valid_range_elem disk_offset disk_end_offset
    rng_offset rng_size rng_end_offset is_valid_frag keep_in_area in_area in_range range_in_range
    object_frag_size to_bytes
evac_ok = refl

queued-Run : Run some_ops sum_bytes 1 new_writer false queued_writer
queued-Run = started queued_writer begun_ok

reading-Run : Run some_ops sum_bytes 1 new_writer true reading_writer
reading-Run = called false queued_writer reading_writer begins queued-Run (refl, refl) read_ok

evac-Run : Run some_ops sum_bytes 1 new_writer false evac_writer
evac-Run = called true reading_writer evac_writer (ends false disk_block) reading-Run refl evac_ok

Run-goes_on_example :
    ((c : Call)
      → IsAllowed true reading_writer c
      → (outcome some_ops sum_bytes 1 c reading_writer ≡ operation_aborted)
        ⊎ ((w' : Writer VolumeState) × (outcome some_ops sum_bytes 1 c reading_writer ≡ returned w')
            × Run some_ops sum_bytes 1 new_writer (is_running c true) w'))
    × (◌≡◌ {A = Bool} true true ⊎ (reading_writer.queued ≡ true) ⊎ (reading_writer.sm ≡ wait_write))
Run-goes_on_example =
    Run-goes_on some_ops sum_bytes 1 some_ops-IsFsOps new_writer-IsFresh reading-Run

evacuation_ends_example :
    (io_rounds some_ops sum_bytes 1 ((false, λ p. 0) ∷ []) evac_writer ≡ operation_aborted)
    ⊎ ((w' : Writer VolumeState) × (io_rounds some_ops sum_bytes 1
            ((false, λ p. 0) ∷ [])
            evac_writer
          ≡ returned w')
        × Run some_ops sum_bytes 1 new_writer false w'
        × (w'.evac_meta ≡ [])
        × ((w'.sm ≡ wait_write) ⊎ (w'.sm ≡ async_flush1)))
evacuation_ends_example =
    evacuation_ends some_ops sum_bytes 1 some_ops-IsFsOps new_writer-IsFresh evac-Run refl
      ((false, λ p. 0) ∷ []) refl

block_entries : List AggMetaEntry
block_entries =
    record { rng = elem_of 0 10000; key = 7 } ∷ record { rng = elem_of 20000 10000; key = 9 } ∷ []

fsmd_rem_non_evac_frags-AreEvacuable_example :
    (left : List AggMetaEntry) × (t' : FsTable) × (fsmd_rem_non_evac_frags block_entries
        (area_offs 4096)
        area_size
        one_object
      ≡ some (left, t'))
    × AreEvacuable 4096 left
fsmd_rem_non_evac_frags-AreEvacuable_example =
    fsmd_rem_non_evac_frags-AreEvacuable 4096 block_entries one_object one_object-IsCounted
