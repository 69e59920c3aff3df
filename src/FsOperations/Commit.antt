-- ===== src/FsOperations/Commit.antt =====
-- fsmd_commit_disk_write, fsmd_fin_flush_commit and fsmd_find_next_range_elem of
-- xproxy-beta/cache/cache_fs_operations.cpp. The finished transactions are only logged by the code.
-- Whether the write to the disk succeeds is an argument. `none` is a failed assertion.
use cache_work.Prelude.{
  ℕ, zero, suc, ◌+◌, Bool, true, false, not, ◌&&◌, ltb, leb, ◌==◌, if◌then◌else◌, ◌⊎◌, inl, inr,
  Option, none, some, ◌>>=◌, List, [], ◌∷◌, length, set,
}
use cache_work.Units.{
  u64, to_bytes, volume_block_size, agg_write_block_size, object_frag_min_data_size,
}
use cache_work.Range.{Range, frag_range}
use cache_work.RangeElem.{RangeElem, has_readers, set_in_memory, valid_range_elem}
use cache_work.RangeVector.{RangeVector, elems, at, is_none, find_exact_elem, find_full_range}
use cache_work.FsTable.{FsTable, find}
use cache_work.FsMetadata.{FsMetadata, modify_table_entries, go_to_next_wr_pos}
use cache_work.AggWriteMeta.{AggMetaEntry}
use cache_work.AggWriteBlock.{AggWriteBlock, bytes_avail, begin_disk_write, end_disk_write}
use cache_work.Transactions.{Transaction, curr_offset}
use cache_work.FsOperations.{with_elems}

-- One round of the loop in the functor: the element of an entry is on the disk now.
unfoldable pub mark_written : AggMetaEntry → List RangeElem → List RangeElem
mark_written e xs =
    let rit : ℕ = find_exact_elem xs e.rng in
    if rit == length xs then xs else set xs rit (set_in_memory false (at xs rit))

-- The functor at the entries `es`: it goes on while the key is the same.
unfoldable pub mark_group : ℕ → List AggMetaEntry → List RangeElem → List RangeElem
mark_group key [] xs = xs
mark_group key (e ∷ es) xs =
    let rest = mark_group key es (mark_written e xs) in if e.key == key then rest else xs

unfoldable pub mark_vec : ℕ → List AggMetaEntry → RangeVector → RangeVector
mark_vec key es v = with_elems (mark_group key es (elems v)) v

-- Where the functor leaves the iterator.
unfoldable pub behind_group : ℕ → List AggMetaEntry → List AggMetaEntry
behind_group key [] = []
behind_group key (e ∷ es) = let rest = behind_group key es in if e.key == key then rest else e ∷ es

unfoldable pub next_entry :
    (key_found : Bool) → AggMetaEntry → List AggMetaEntry → List AggMetaEntry
next_entry true e es = behind_group e.key (e ∷ es)
next_entry false e es = es

-- The outer loop; out of fuel it is `none`.
unfoldable pub commit_loop : (fuel : ℕ) → List AggMetaEntry → FsMetadata → Option FsMetadata
commit_loop fuel [] md = some md
commit_loop zero (e ∷ es) md = none
commit_loop (suc fuel) (e ∷ es) md =
    let r = modify_table_entries e.key (mark_vec e.key (e ∷ es)) md in
    commit_loop fuel (next_entry r.0 e es) r.1

module _ (data_offs end_data_offs : ℕ) where
  unfoldable pub fsmd_commit_disk_write :
      (disk_offset : ℕ) → FsMetadata → AggWriteBlock → Option (FsMetadata × AggWriteBlock)
  fsmd_commit_disk_write disk_offset md awb =
      commit_loop (length (end_disk_write awb).0) (end_disk_write awb).0 md >>= λ md'.
      if not (to_bytes volume_block_size disk_offset == md'.ops.write_pos)
      then none
      else some (go_to_next_wr_pos data_offs end_data_offs md', (end_disk_write awb).1)

  -- After the write to the disk, with what it answered.
  unfoldable pub fin_written :
      (write_ok : Bool)
      → (disk_offset : ℕ) → FsMetadata
      → AggWriteBlock
      → Option (FsMetadata × AggWriteBlock)
  fin_written true disk_offset md awb = fsmd_commit_disk_write disk_offset md awb
  fin_written false disk_offset md awb = some (md, awb)

  -- The position and the bytes of the write, if there is one, the metadata and the block.
  unfoldable pub fsmd_fin_flush_commit :
      (write_ok : Bool)
      → (disk_offset : ℕ) → FsMetadata
      → AggWriteBlock
      → Option (Option (ℕ × List ℕ) × FsMetadata × AggWriteBlock)
  fsmd_fin_flush_commit write_ok disk_offset md awb =
      if not (ltb 0 (bytes_avail awb))
      then some (none, md, awb)
      else begin_disk_write awb >>= λ b.
          if not (
            leb (u64 (md.ops.write_pos + agg_write_block_size)) end_data_offs
            && leb (length b.0) agg_write_block_size)
          then none
          else fin_written write_ok disk_offset md b.1 >>= λ r.
              some (some (md.ops.write_pos, b.0), r.0, r.1)

pub data FindErr : Type 0 where
  object_not_present : FindErr
  corrupted_object_meta : FindErr

-- The functor of fsmd_find_next_range_elem.
unfoldable pub next_elem : Range → List RangeElem → FindErr ⊎ RangeElem
next_elem rng xs =
    let found = find_full_range xs rng in
    if not (is_none found) then inr (at xs found.first) else inl object_not_present

unfoldable pub next_elem_at : (offs : ℕ) → Option RangeVector → Option (FindErr ⊎ RangeElem)
next_elem_at offs none = some (inl object_not_present)
next_elem_at offs (some v) =
    frag_range offs object_frag_min_data_size >>= λ rng. some (next_elem rng (elems v))

-- What is done with the element that was found.
unfoldable pub checked_elem : (doffs dsize : ℕ) → FindErr ⊎ RangeElem → Option (FindErr ⊎ RangeElem)
checked_elem doffs dsize (inl err) = some (inl err)
checked_elem doffs dsize (inr e) =
    if not (valid_range_elem e doffs dsize)
    then some (inl corrupted_object_meta)
    else if has_readers e
    then some (inr e)
    else none

unfoldable pub fsmd_find_next_range_elem :
    (doffs dsize : ℕ) → Transaction → FsTable → Option (FindErr ⊎ RangeElem)
fsmd_find_next_range_elem doffs dsize rtrans t =
    next_elem_at (curr_offset rtrans) (find rtrans.fs_node_key t.fs_nodes)
    >>= checked_elem doffs dsize
