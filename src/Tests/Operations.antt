-- ===== src/Tests/Operations.antt =====
-- The theorems on the operations of a volume and on transactions, at the test data.
use cache_work.Prelude.{ℕ, ◌<◌, ◌≡◌, ◌⊎◌, refl, Bool, true, false, none, some, List, [], ◌∷◌, arith}
use cache_work.Units.{to_bytes, volume_block_size, in_range, range_in_range}
use cache_work.Range.{Range}
use cache_work.RangeElem.{RangeElem, rng_offset, rng_end_offset, rng_size, inc_readers}
use cache_work.RangeVector.{
  lower_bound, full_loop, full_from, full_last, full_start, find_full_range,
}
use cache_work.RangeVector.{single, heap}
use cache_work.FsTable.{FsTable, find, put}
use cache_work.FsTable.Nodes.{IsKept}
use cache_work.FsTable.Counters.{IsCounted}
use cache_work.FsMetadata.{FsMetadata, FsMetadataHdr, go_to_next_wr_pos}
use cache_work.AggWriteMeta.{AggMetaEntry}
use cache_work.AggWriteBlock.{bytes_avail, begin_disk_write, AggWriteBlock, meta_blocks}
use cache_work.Transactions.{Transaction, make_transaction, valid}
use cache_work.FsOperations.{
  set, inc_loop, begin_marked, begin_read_elems, end_read_elems, fsmd_begin_read, read_at,
  transaction_of, with_elems,
}
use cache_work.FsOperations.Marks.{raise}
use cache_work.FsOperations.Reading.{raises, Pick}
use cache_work.FsOperations.Readers.{ReadRun, at_start, next, begun, ReadRun-raises}
use cache_work.FsOperations.Restored.{BeginOutcome, fsmd_begin_read-fsmd_end_read}
use cache_work.FsOperations.Writes.{
  WriteErr, fsmd_rem_non_evac_frags, in_area, fsmd_begin_write_truncate, fsmd_add_new_fragment,
}
use cache_work.FsOperations.Unread.{Has}
use cache_work.FsOperations.Evacuation.{KeepsAll, IsRead, fsmd_rem_non_evac_frags-EvacOutcome}
use cache_work.FsOperations.Truncation.{TruncateOutcome, fsmd_begin_write_truncate-TruncateOutcome}
use cache_work.FsOperations.FinalFlush.{fsmd_fin_flush_commit-Committed}
use cache_work.FsOperations.Commit.{
  fsmd_fin_flush_commit, fsmd_commit_disk_write, fsmd_find_next_range_elem,
}
use cache_work.FsOperations.Marked.{IsSettled, fsmd_commit_disk_write-IsSettled}
use cache_work.FsOperations.NextElem.{FindsAt, fsmd_begin_read-fsmd_find_next_range_elem}
use cache_work.FsOperations.NewFragment.{NewFragment, fsmd_add_new_fragment-NewFragment}
use cache_work.Tests.Data.{elem_of, two_elems, stored, one_object, one_object-IsCounted}
use cache_work.Tests.WriteBlock.{
  one_entry-AreWide, first_elem, sum_bytes, one_block, one_block-IsPlaced, new_range, new_frag,
  new_frag-CanAdd,
}

-- One reader of the bytes 1000 to 9499.
one_reader : begin_read_elems stored two_elems ≡ some (set, raises (stored ∷ []) two_elems)
unfolding begin_read_elems begin_marked inc_loop inc_readers find_full_range full_start full_from
    full_last full_loop lower_bound rng_offset rng_end_offset rng_size in_range range_in_range raise
one_reader = refl

one_reader_run :
    ReadRun
      (record { rngs = []; elems = two_elems })
      (record { rngs = stored ∷ []; elems = raises (stored ∷ []) two_elems })
one_reader_run = next at_start (begun stored one_reader)

ReadRun-raises_example :
    (raises (stored ∷ []) two_elems ≡ raises (stored ∷ []) two_elems)
    × ((rng : Range) (rest : List Range)
        → Pick rng (stored ∷ []) rest
        → end_read_elems rng (raises (stored ∷ []) two_elems) ≡ some (true, raises rest two_elems))
ReadRun-raises_example = ReadRun-raises two_elems _ one_reader_run

fsmd_begin_read-fsmd_end_read_example :
    (tr : Transaction) × (t' : FsTable) × (fsmd_begin_read 7 stored one_object ≡ some (tr, t'))
    × BeginOutcome 7 stored one_object tr t'
fsmd_begin_read-fsmd_end_read_example = fsmd_begin_read-fsmd_end_read 7 stored one_object

abbrev block_entries : List AggMetaEntry
block_entries =
    record { rng = elem_of 0 10000; key = 7 } ∷ record { rng = elem_of 20000 10000; key = 9 } ∷ []

fsmd_rem_non_evac_frags-EvacOutcome_example :
    (left : List AggMetaEntry) × (t' : FsTable) × (fsmd_rem_non_evac_frags block_entries 4096 8200
        one_object
      ≡ some (left, t'))
    × IsCounted t'
    × KeepsAll one_object t'
    × ((e : AggMetaEntry)
        → Has e block_entries
        → IsRead e one_object
        → in_area (to_bytes volume_block_size 4096) (to_bytes volume_block_size 8200) e ≡ true
        → Has e left)
fsmd_rem_non_evac_frags-EvacOutcome_example =
    fsmd_rem_non_evac_frags-EvacOutcome block_entries 4096 8200 one_object one_object-IsCounted

fsmd_begin_write_truncate-TruncateOutcome_example :
    (r : WriteErr ⊎ Transaction) × (t' : FsTable) × (fsmd_begin_write_truncate 7 stored one_object
      ≡ some (r, t'))
    × TruncateOutcome 7 stored one_object r t'
fsmd_begin_write_truncate-TruncateOutcome_example =
    fsmd_begin_write_truncate-TruncateOutcome 7 stored one_object one_object-IsCounted

abbrev volume_hdr : FsMetadataHdr
volume_hdr = record {
  magic = 82173157688003326;
  create_time = 0;
  uuid = 1;
  version_major = 0;
  version_minor = 3;
  sync_serial = 4;
}

abbrev volume_md : FsMetadata
volume_md = record {
  hdr = volume_hdr;
  ops = record { write_pos = 2097152; write_lap = 0 };
  table = one_object;
  ftr = volume_hdr;
  is_dirty = false;
}

at_write_pos : to_bytes volume_block_size 4096 ≡ 2097152
unfolding to_bytes
at_write_pos = refl

fsmd_add_new_fragment-NewFragment_example :
    (res : Bool) × (fsm' : FsMetadata) × (awb' : AggWriteBlock) × (fsmd_add_new_fragment sum_bytes 1
        7 new_range new_frag 4096 volume_md one_block
      ≡ some (res, fsm', awb'))
    × NewFragment 4096 volume_md res fsm' awb'
fsmd_add_new_fragment-NewFragment_example =
    fsmd_add_new_fragment-NewFragment sum_bytes 1 7 new_range new_frag 4096 volume_md one_block
      at_write_pos new_frag-CanAdd (omega arith) one_block-IsPlaced one_object-IsCounted

-- A fragment that is still only in the block, and a table and a block with it.
abbrev fresh_elem : RangeElem
fresh_elem = record (elem_of 0 10000) { in_memory = true }

abbrev fresh_md : FsMetadata
fresh_md = record volume_md { table = record one_object { fs_nodes = (7, single fresh_elem) ∷ [] } }

abbrev fresh_block : AggWriteBlock
fresh_block = record one_block {
  block_meta = record one_block.block_meta { entries = block_entries };
}

fresh_md-IsKept : IsKept fresh_md.table.fs_nodes
unfolding find rng_offset rng_end_offset rng_size
fresh_md-IsKept = (refl, omega arith, omega arith, tt)

fsmd_commit_disk_write-IsSettled_example :
    (md' : FsMetadata) × (awb' : AggWriteBlock) × (fsmd_commit_disk_write 8192 20000000 4096
        fresh_md fresh_block
      ≡ some (md', awb'))
    × (md'.ops ≡ (go_to_next_wr_pos 8192 20000000 fresh_md).ops)
    × (awb'.block_meta.entries ≡ [])
    × (awb'.buff_pos ≡ meta_blocks)
    × (awb'.pending_disk_write ≡ false)
    × ((key : ℕ)
        → IsSettled key block_entries
            (find key fresh_md.table.fs_nodes)
            (find key md'.table.fs_nodes))
fsmd_commit_disk_write-IsSettled_example =
    fsmd_commit_disk_write-IsSettled 8192 20000000 4096 fresh_md fresh_block fresh_md-IsKept
      at_write_pos

-- The table while the reader has its transaction.
abbrev read_object : FsTable
read_object = record one_object { fs_nodes = (7, heap 2 (raises (stored ∷ []) two_elems)) ∷ [] }

abbrev reader : Transaction
reader = record { fs_node_key = 7; rng = stored; done = 0 }

begun_read : fsmd_begin_read 7 stored one_object ≡ some (reader, read_object)
unfolding fsmd_begin_read read_at transaction_of make_transaction find put with_elems
    begin_read_elems begin_marked inc_loop inc_readers find_full_range full_start full_from
    full_last full_loop lower_bound rng_offset rng_end_offset rng_size in_range range_in_range raise
begun_read = refl

reader-valid : valid reader ≡ true
unfolding valid
reader-valid = refl

fsmd_begin_read-fsmd_find_next_range_elem_example :
    FindsAt 8192 4194304 7 6000 read_object
      (fsmd_find_next_range_elem 8192 4194304 (record reader { done = 5000 }) read_object)
fsmd_begin_read-fsmd_find_next_range_elem_example =
    fsmd_begin_read-fsmd_find_next_range_elem 8192 4194304 7 stored one_object
      (one_object-IsCounted).kept (omega arith) (omega arith) reader read_object begun_read
      reader-valid 5000 (omega arith)

-- The fragment of the block that is flushed is in the table.
abbrev flush_md : FsMetadata
flush_md = record volume_md {
  table = record one_object {
    fs_nodes = (7, single (record first_elem { in_memory = true })) ∷ [];
  };
}

flush_md-IsKept : IsKept flush_md.table.fs_nodes
unfolding find rng_offset rng_end_offset rng_size
flush_md-IsKept = (refl, omega arith, omega arith, tt)

fsmd_fin_flush_commit-Committed_example :
    ((bytes_avail one_block ≡ 0)
      × (fsmd_fin_flush_commit 8192 20000000 true 4096 flush_md one_block
          ≡ some (none, flush_md, one_block))
      × (fsmd_fin_flush_commit 8192 20000000 false 4096 flush_md one_block
          ≡ some (none, flush_md, one_block)))
    ⊎ ((0 < bytes_avail one_block)
        × (bytes : List ℕ) × (b' : AggWriteBlock) × (md' : FsMetadata) × (awb' : AggWriteBlock)
        × (begin_disk_write one_block ≡ some (bytes, b'))
        × (b'.block_meta ≡ one_block.block_meta)
        × (fsmd_fin_flush_commit 8192 20000000 true 4096 flush_md one_block
            ≡ some (some (2097152, bytes), md', awb'))
        × (fsmd_fin_flush_commit 8192 20000000 false 4096 flush_md one_block
            ≡ some (some (2097152, bytes), flush_md, b'))
        × ((md'.ops ≡ (go_to_next_wr_pos 8192 20000000 flush_md).ops)
            × (awb'.block_meta.entries ≡ [])
            × (awb'.buff_pos ≡ meta_blocks)
            × (awb'.pending_disk_write ≡ false)
            × ((key : ℕ)
                → IsSettled key one_block.block_meta.entries
                    (find key flush_md.table.fs_nodes)
                    (find key md'.table.fs_nodes))))
fsmd_fin_flush_commit-Committed_example =
    fsmd_fin_flush_commit-Committed 8192 20000000 4096 flush_md one_block flush_md-IsKept
      at_write_pos (omega arith) (omega arith) one_block-IsPlaced (omega arith) one_entry-AreWide
      (omega arith) (omega arith)
