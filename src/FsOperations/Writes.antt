-- ===== src/FsOperations/Writes.antt =====
-- The operations of the writer of xproxy-beta/cache/cache_fs_operations.cpp on the table of a volume and
-- on the block in memory.
use cache_work.Prelude.{
  ℕ, zero, suc, ◌+◌, Bool, true, false, not, ◌&&◌, ◌||◌, ltb, ◌==◌, if◌then◌else◌, ◌⊎◌, inl, inr,
  Option, none, some, ◌>>=◌, List, [], ◌∷◌, ◌++◌, length, set,
}
use cache_work.Units.{
  u64, to_bytes, volume_block_size, min_obj_size, object_frag_size, range_in_range,
}
use cache_work.Range.{Range}
use cache_work.RangeElem.{
  RangeElem, rng_size, disk_offset, has_readers, set_in_memory, set_disk_offset, valid_range_elem,
}
use cache_work.RangeVector.{RangeVector, elems, size, at, find_exact_elem}
use cache_work.RangeVector.Update.{rem_range}
use cache_work.RangeVector.Trim.{trim_overlaps}
use cache_work.FsTable.{FsTable, AddRes, find, data_of, rem_entries}
use cache_work.FsMetadata.{FsMetadata, add_table_entry}
use cache_work.AggWriteMeta.{AggMetaEntry}
use cache_work.AggWriteBlock.{AggWriteBlock, FailRes, add_fragment}
use cache_work.Transactions.{Transaction, make_transaction}
use cache_work.FsOperations.{read_at}

pub data WriteErr : Type 0 where
  object_present : WriteErr
  new_object_too_small : WriteErr
  object_in_use : WriteErr

unfoldable pub any_readers : List RangeElem → Bool
any_readers [] = false
any_readers (x ∷ xs) = has_readers x || any_readers xs

-- fsmd_begin_write(key), without truncation.
unfoldable pub write_of : ℕ → Range → WriteErr ⊎ Transaction
write_of key new_rng =
    if new_rng.len == 0
    then inl object_present
    else if ltb new_rng.len min_obj_size
    then inl new_object_too_small
    else inr (make_transaction key new_rng)

unfoldable pub trim_at : Range → Option RangeVector → Option Range
trim_at rng none = some rng
trim_at rng (some v) = trim_overlaps (elems v) rng

unfoldable pub fsmd_begin_write : ℕ → Range → FsTable → Option (WriteErr ⊎ Transaction)
fsmd_begin_write key rng t =
    trim_at rng (find key t.fs_nodes) >>= λ new_rng. some (write_of key new_rng)

-- The functor of fsmd_begin_write_truncate.
unfoldable pub truncate_rem : RangeVector → RangeVector × ℕ
truncate_rem v =
    if any_readers (elems v)
    then (v, 0)
    else ((rem_range (record { first = 0; last = size v }) v).0, u64 (data_of (elems v)))

abbrev pub truncated : Option ℕ → Bool
truncated none = true
truncated (some found_removed) = ltb 0 found_removed

unfoldable pub fsmd_begin_write_truncate :
    ℕ → Range → FsTable → Option ((WriteErr ⊎ Transaction) × FsTable)
fsmd_begin_write_truncate key rng t = rem_entries key truncate_rem t >>= λ r.
    some (if truncated r.0 then inr (make_transaction key rng) else inl object_in_use, r.1)

-- The condition of fsmd_add_new_fragment: no reader of what would be overwritten.
unfoldable pub overwrite_unread : List RangeElem → RangeElem → Bool
overwrite_unread overlapped re = not (any_readers overlapped)

unfoldable pub res_of_add : AddRes → Bool
res_of_add AddRes.added = true
res_of_add AddRes.overwrote = true
res_of_add AddRes.limit_reached = false
res_of_add AddRes.skipped = true

unfoldable pub res_of_fail : FailRes → Bool
res_of_fail FailRes.overlaps = true
res_of_fail FailRes.no_space_meta = false
res_of_fail FailRes.no_space_data = false

unfoldable pub add_new_entry :
    ℕ
    → FailRes ⊎ RangeElem
    → FsMetadata
    → AggWriteBlock
    → Option (Bool × FsMetadata × AggWriteBlock)
add_new_entry key (inl fail) fsm awb = some (res_of_fail fail, fsm, awb)
add_new_entry key (inr re) fsm awb =
    add_table_entry key (set_in_memory true re) overwrite_unread fsm >>= λ r.
    some (res_of_add r.0, r.1, awb)

-- The functor of fsmd_add_evac_fragment.
unfoldable pub mark_evac : RangeElem → List RangeElem → Option (Bool × List RangeElem)
mark_evac re xs =
    let it : ℕ = find_exact_elem xs re in
    if it == length xs
    then some (false, xs)
    else set_disk_offset (disk_offset re) (set_in_memory true (at xs it)) >>= λ e.
        some (true, set xs it e)

unfoldable pub add_evac_entry :
    ℕ
    → FailRes ⊎ RangeElem
    → FsMetadata
    → AggWriteBlock
    → Option (Bool × FsMetadata × AggWriteBlock)
add_evac_entry key (inl fail) fsm awb = none
add_evac_entry key (inr re) fsm awb =
    read_at key false (mark_evac re) fsm.table (find key fsm.table.fs_nodes) >>= λ r.
    some (r.0, record fsm { table = r.1 }, awb)

module _ (adler32 : ℕ → List ℕ → ℕ) (adler32_init : ℕ) where
  unfoldable pub fsmd_add_new_fragment :
      ℕ
      → Range
      → List ℕ
      → ℕ
      → FsMetadata
      → AggWriteBlock
      → Option (Bool × FsMetadata × AggWriteBlock)
  fsmd_add_new_fragment key rng frag disk_offs fsm awb =
      if not (to_bytes volume_block_size disk_offs == fsm.ops.write_pos)
      then none
      else add_fragment adler32 adler32_init key rng disk_offs frag awb >>= λ r.
          add_new_entry key r.0 fsm r.1

  unfoldable pub fsmd_add_evac_fragment :
      ℕ
      → Range
      → List ℕ
      → ℕ
      → FsMetadata
      → AggWriteBlock
      → Option (Bool × FsMetadata × AggWriteBlock)
  fsmd_add_evac_fragment key rng frag disk_offs fsm awb =
      if not (to_bytes volume_block_size disk_offs == fsm.ops.write_pos)
      then none
      else add_fragment adler32 adler32_init key rng disk_offs frag awb >>= λ r.
          add_evac_entry key r.0 fsm r.1

-- fsmd_rem_non_evac_frags. What it does with one entry of the block: whether the entry stays, the
-- vector of its key, and the size of what was removed.
pub record Verdict : Type 0 where
  pub stays : Bool
  pub vec : RangeVector
  pub gone : ℕ

unfoldable pub evac_step : AggMetaEntry → RangeVector → Verdict
evac_step e v =
    let rit : ℕ = find_exact_elem (elems v) e.rng in
    if rit == size v
    then record { stays = false; vec = v; gone = 0 }
    else if not (has_readers (at (elems v) rit))
    then record {
      stays = false;
      vec = (rem_range (record { first = rit; last = rit + 1 }) v).0;
      gone = rng_size (at (elems v) rit);
    }
    else record { stays = true; vec = v; gone = 0 }

-- The loop over the successive entries with one key: what stays, what is behind them, the vector,
-- and the size of what was removed.
pub record Group : Type 0 where
  pub kept : List AggMetaEntry
  pub rest : List AggMetaEntry
  pub vec : RangeVector
  pub rem_size : ℕ

unfoldable pub evac_group : ℕ → List AggMetaEntry → RangeVector → Group
evac_group key [] v = record { kept = []; rest = []; vec = v; rem_size = 0 }
evac_group key (e ∷ es) v =
    let s = evac_step e v in
    let g = evac_group key es s.vec in
    if e.key == key
    then record {
      kept = if s.stays then e ∷ g.kept else g.kept;
      rest = g.rest;
      vec = g.vec;
      rem_size = s.gone + g.rem_size;
    }
    else record { kept = []; rest = e ∷ es; vec = v; rem_size = 0 }

abbrev pub Evac : Type 0
Evac = Option (List AggMetaEntry × FsTable)

-- The functor that rem_table_entries calls at the entries `es`, which start with the key.
unfoldable pub evac_rem : ℕ → List AggMetaEntry → RangeVector → RangeVector × ℕ
evac_rem key es v = let g = evac_group key es v in (g.vec, u64 g.rem_size)

-- One round of the outer loop at the entries `e ∷ es`.
unfoldable pub evac_key :
    (List AggMetaEntry → FsTable → Evac)
    → AggMetaEntry
    → List AggMetaEntry
    → FsTable
    → Option RangeVector
    → Evac
evac_key loop e es t none = loop es t
evac_key loop e es t (some v) = rem_entries e.key (evac_rem e.key (e ∷ es)) t >>= λ r.
    loop (evac_group e.key (e ∷ es) v).rest r.1 >>= λ l.
    some ((evac_group e.key (e ∷ es) v).kept ++ l.0, l.1)

-- The outer loop; out of fuel it is `none`.
unfoldable pub evac_loop : (fuel : ℕ) → List AggMetaEntry → FsTable → Evac
evac_loop fuel [] t = some ([], t)
evac_loop zero (e ∷ es) t = none
evac_loop (suc fuel) (e ∷ es) t = evac_key (evac_loop fuel) e es t (find e.key t.fs_nodes)

-- The entries that lie inside the area of the disk.
unfoldable pub in_area : (doffs dsize : ℕ) → AggMetaEntry → Bool
in_area doffs dsize e =
    let offs : ℕ = to_bytes volume_block_size (disk_offset e.rng) in
    valid_range_elem e.rng doffs dsize
    && range_in_range offs (u64 (offs + object_frag_size (rng_size e.rng))) doffs
        (u64 (doffs + dsize))

unfoldable pub keep_in_area : (doffs dsize : ℕ) → List AggMetaEntry → List AggMetaEntry
keep_in_area doffs dsize [] = []
keep_in_area doffs dsize (e ∷ es) =
    if in_area doffs dsize e then e ∷ keep_in_area doffs dsize es else keep_in_area doffs dsize es

unfoldable pub fsmd_rem_non_evac_frags :
    List AggMetaEntry → (disk_offs area_size : ℕ) → FsTable → Evac
fsmd_rem_non_evac_frags entries disk_offs area_size t =
    evac_loop (length entries) entries t >>= λ r. some (
      keep_in_area (to_bytes volume_block_size disk_offs) (to_bytes volume_block_size area_size)
          r.0,
      r.1,
    )
