-- ===== src/FsOperations/NewFragment.antt =====
-- fsmd_add_new_fragment as a whole: the block in memory and the table together.
use cache_work.Prelude.{
  ℕ, ◌+◌, ◌≤◌, ◌≡◌, ◌⊎◌, inr, refl, Bool, true, false, ◌==◌, ==_iff, some, List, arith,
}
use cache_work.Units.{to_bytes, volume_block_size, max_obj_size}
use cache_work.Range.{Range}
use cache_work.RangeElem.{RangeElem, rng_offset, rng_size, rng_end_offset, set_in_memory}
use cache_work.RangeElem.Fields.{IsSound, rng_end_offset-eq}
use cache_work.FsTable.{FsTable, AddRes}
use cache_work.FsTable.Counters.{IsCounted}
use cache_work.FsTable.Adding.{AddOutcome, add_entry-AddOutcome}
use cache_work.FsMetadata.{FsMetadata, add_table_entry}
use cache_work.AggWriteBlock.{AggWriteBlock, FailRes}
use cache_work.AggWriteBlock.Placed.{IsPlaced}
use cache_work.AggWriteBlock.Adding.{
  CanAdd, FragAnswer, data_full, meta_full, clash, added, add_fragment-IsPlaced,
}
use cache_work.FsOperations.Writes.{
  overwrite_unread, res_of_add, add_new_entry, fsmd_add_new_fragment,
}
use cache_work.FsOperations.Evacuation.{KeepsAll}
use cache_work.FsOperations.Kept.{Keeps-refl}
use cache_work.FsOperations.Overwriting.{add_entry-KeepsAll}

in_memory-IsSound : (re : RangeElem) → IsSound re → IsSound (set_in_memory true re)
unfolding set_in_memory rng_offset rng_size
in_memory-IsSound re s = record {
  size_lo = s.size_lo;
  size_hi = s.size_hi;
  offset_lo = s.offset_lo;
  offset_hi = s.offset_hi;
  disk_lo = s.disk_lo;
  disk_hi = s.disk_hi;
  nonempty = s.nonempty;
  fits = s.fits;
  starts = s.starts;
}

in_memory-end : (re : RangeElem) → rng_end_offset (set_in_memory true re) ≡ rng_end_offset re
unfolding set_in_memory rng_end_offset rng_offset rng_size
in_memory-end re = refl

-- What the writer relies on after fsmd_add_new_fragment: the block and the counters are in order,
-- no element with readers is lost, the write position stays, and where the fragment is to be tried
-- again in the next block, the table is as it was.
pub record NewFragment (wpos : ℕ) (fsm : FsMetadata) (res : Bool) (fsm' : FsMetadata)
    (awb' : AggWriteBlock) : Type 0 where
  pub placed : IsPlaced wpos awb'
  pub counted : IsCounted fsm'.table
  pub readers_stay : KeepsAll fsm.table fsm'.table
  pub same_ops : fsm'.ops ≡ fsm.ops
  pub not_added : res ≡ false → fsm'.table ≡ fsm.table

limit_unchanged :
    (key : ℕ) (e : RangeElem) (t t' : FsTable) (r : AddRes)
    → AddOutcome key e t r t'
    → res_of_add r ≡ false
    → t' ≡ t
unfolding res_of_add
limit_unchanged key e t t' AddRes.added o h = absurd cc
limit_unchanged key e t t' AddRes.overwrote o h = absurd cc
limit_unchanged key e t t' AddRes.limit_reached o h = o.answer.0
limit_unchanged key e t t' AddRes.skipped o h = absurd cc

module _ (key wpos : ℕ) (fsm : FsMetadata) (c : IsCounted fsm.table) where
  untouched :
      (b : Bool) (awb' : AggWriteBlock) → IsPlaced wpos awb' → NewFragment wpos fsm b fsm awb'
  untouched b awb' p = record {
    placed = p;
    counted = c;
    readers_stay = λ k. Keeps-refl _;
    same_ops = refl;
    not_added = λ h. refl;
  }

  entry_added :
      (re : RangeElem) (awb' : AggWriteBlock)
      → IsSound re
      → rng_end_offset re ≤ max_obj_size
      → IsPlaced wpos awb'
      → (b : Bool) × (fsm' : FsMetadata) × (add_new_entry key (inr re) fsm awb'
          ≡ some (b, fsm', awb'))
        × NewFragment wpos fsm b fsm' awb'
  unfolding add_new_entry add_table_entry
  entry_added re awb' s fits p =
      let e : RangeElem = set_in_memory true re in
      let s' = in_memory-IsSound re s in
      let fits' : rng_end_offset e ≤ max_obj_size = rw (in_memory-end re) fits in
      let (r, t', q, o) = add_entry-AddOutcome key e s' fits' fsm.table c overwrite_unread in
      rw q (
        _,
        _,
        refl,
        record {
          placed = p;
          counted = o.counted;
          readers_stay = add_entry-KeepsAll key e fsm.table s' fits' c r t' q;
          same_ops = refl;
          not_added = limit_unchanged key e fsm.table t' r o;
        },
      )

  answered :
      (rng : Range) (adler32 : ℕ → List ℕ → ℕ) (adler32_init : ℕ) (frag : List ℕ)
      (b b' : AggWriteBlock) (r : FailRes ⊎ RangeElem)
      → rng.beg + rng.len ≤ max_obj_size
      → FragAnswer adler32 adler32_init wpos key rng frag b r b'
      → IsPlaced wpos b'
      → (res : Bool) × (fsm' : FsMetadata) × (add_new_entry key r fsm b' ≡ some (res, fsm', b'))
        × NewFragment wpos fsm res fsm' b'
  unfolding add_new_entry
  answered rng adler32 init frag b _ _ fits (data_full h) p = (_, fsm, refl, untouched _ b p)
  answered rng adler32 init frag b _ _ fits (meta_full h) p = (_, fsm, refl, untouched _ b p)
  answered rng adler32 init frag b _ _ fits (clash i l q x y) p = (_, fsm, refl, untouched _ b p)
  answered rng adler32 init frag b b' _ fits (added re k le s o z d h a) p =
      entry_added re _ s (omega (arith, rng_end_offset-eq re s, o, z, fits)) p

-- At the write position of the metadata, on a fragment and a block that CanAdd allows, with the
-- fragments placed, for a range inside the largest object and on a table with true counters,
-- fsmd_add_new_fragment does not abort. After it the fragments are placed and the counters true,
-- no element with readers is lost, the write position is the same, and where it answers false
-- the table is as it was.
pub fsmd_add_new_fragment-NewFragment :
    (adler32 : ℕ → List ℕ → ℕ) (adler32_init : ℕ) (key : ℕ) (rng : Range) (frag : List ℕ) (wpos : ℕ)
    (fsm : FsMetadata) (awb : AggWriteBlock)
    → to_bytes volume_block_size wpos ≡ fsm.ops.write_pos
    → CanAdd wpos rng frag awb
    → rng.beg + rng.len ≤ max_obj_size
    → IsPlaced wpos awb
    → IsCounted fsm.table
    → (res : Bool) × (fsm' : FsMetadata) × (awb' : AggWriteBlock) × (fsmd_add_new_fragment adler32
          adler32_init key rng frag wpos fsm awb
        ≡ some (res, fsm', awb'))
      × NewFragment wpos fsm res fsm' awb'
unfolding fsmd_add_new_fragment
fsmd_add_new_fragment-NewFragment adler32 init key rng frag wpos fsm awb here can fits p c =
    let (r, b', q, a, p') = add_fragment-IsPlaced adler32 init wpos key rng frag awb can p in
    let (res, fsm', q', w) = answered key wpos fsm c rng adler32 init frag awb b' r fits a p' in
    let t : (to_bytes volume_block_size wpos == fsm.ops.write_pos) ≡ true = (==_iff _ _).1 here in
    (res, fsm', b', rw (t, q) q', w)
