-- ===== src/AggWriter/Filtered.antt =====
-- fsmd_rem_non_evac_frags, seen by the writer: what it leaves can be evacuated.
use cache_work.Prelude.{
  ℕ, ◌+◌, ◌/◌, ◌≤◌, ◌≡◌, inl, inr, refl, Bool, true, false, ◌&&◌, leb, Bool-cases, some, List, [],
  ◌∷◌, arith, >>=-eq-some, subst,
}
use cache_work.Units.{
  u64, to_bytes, volume_block_size, agg_write_meta_size, agg_write_data_size, object_frag_size,
  object_frag_max_data_size,
}
use cache_work.Range.{is_valid_frag, frag_range}
use cache_work.RangeElem.{rng_offset, rng_size, valid_range_elem}
use cache_work.AggWriteMeta.{AggMetaEntry}
use cache_work.FsTable.{FsTable}
use cache_work.FsOperations.Writes.{in_area, keep_in_area, fsmd_rem_non_evac_frags, evac_loop}
use cache_work.FsTable.Counters.{IsCounted}
use cache_work.FsOperations.Evacuation.{fsmd_rem_non_evac_frags-EvacOutcome}
use cache_work.AggWriter.Ready.{IsEvacuable, AreEvacuable}

abbrev pub area_offs : ℕ → ℕ
area_offs p = u64 (p + agg_write_meta_size / volume_block_size)

abbrev pub area_size : ℕ
area_size = agg_write_data_size / volume_block_size

le→leb : (a b : ℕ) → a ≤ b → leb a b ≡ true
le→leb a b h = ground arith

-- A sound fragment is not too large.
valid-small :
    (o n : ℕ)
    → is_valid_frag o n ≡ true
    → leb (object_frag_size n) (object_frag_size object_frag_max_data_size) ≡ true
unfolding is_valid_frag object_frag_size
valid-small o n h =
    let le : n ≤ object_frag_max_data_size = ground arith in
    let small : object_frag_size n ≤ object_frag_size object_frag_max_data_size = omega arith in
    rw (le→leb _ _ small) refl

valid-range :
    (o n : ℕ) → is_valid_frag o n ≡ true → frag_range o n ≡ some (record { beg = o; len = n })
unfolding frag_range
valid-range o n h = rw h refl

-- The byte where the write area begins.
area_bytes :
    (p : ℕ)
    → to_bytes volume_block_size (area_offs p)
      ≡ u64 (to_bytes volume_block_size p + agg_write_meta_size)
unfolding to_bytes
area_bytes p = omega arith

area_size_bytes : to_bytes volume_block_size area_size ≡ agg_write_data_size
unfolding to_bytes
area_size_bytes = refl

both : (a b : Bool) → (a && b) ≡ true → (a ≡ true) × (b ≡ true)
both true b h = (refl, h)
both false b h = absurd (cc (h))

in_area-IsEvacuable :
    (p : ℕ) (e : AggMetaEntry)
    → in_area (to_bytes volume_block_size (area_offs p)) (to_bytes volume_block_size area_size) e
      ≡ true
    → IsEvacuable p e
unfolding in_area valid_range_elem
in_area-IsEvacuable p e h =
    let (v, i) = both _ _ h in
    let (f, _) = both _ _ v in
    record {
      small = valid-small (rng_offset e.rng) (rng_size e.rng) f;
      in_area = rw (← area_bytes p, ← area_size_bytes) i;
      rng = _;
      is_rng = valid-range (rng_offset e.rng) (rng_size e.rng) f;
    }

pub keep_in_area-AreEvacuable :
    (p : ℕ) (es : List AggMetaEntry)
    → AreEvacuable p (
        keep_in_area
          (to_bytes volume_block_size (area_offs p))
          (to_bytes volume_block_size area_size)
          es)
unfolding keep_in_area
keep_in_area-AreEvacuable p [] = refl
keep_in_area-AreEvacuable p (e ∷ es) =
    elim (Bool-cases (
      in_area (to_bytes volume_block_size (area_offs p)) (to_bytes volume_block_size area_size)
        e)) [
          | inl t ↦ rw t (in_area-IsEvacuable p e t, keep_in_area-AreEvacuable p es)
          | inr f ↦ rw f (keep_in_area-AreEvacuable p es)
        ]

-- Whatever entries the disk held, on a table with true counters fsmd_rem_non_evac_frags returns,
-- and each entry that it leaves passes the X3ME_ENFORCE of begin_evac and has the range that
-- on_evac_done builds, for the block at that write position.
pub fsmd_rem_non_evac_frags-AreEvacuable :
    (p : ℕ) (entries : List AggMetaEntry) (t : FsTable)
    → IsCounted t
    → (left : List AggMetaEntry) × (t' : FsTable) × (fsmd_rem_non_evac_frags entries
          (area_offs p)
          area_size
          t
        ≡ some (left, t'))
      × AreEvacuable p left
unfolding fsmd_rem_non_evac_frags
fsmd_rem_non_evac_frags-AreEvacuable p entries t c =
    let (left, t', q, _, _, _) =
      fsmd_rem_non_evac_frags-EvacOutcome entries (area_offs p) area_size t c in
    let (r, k, e) = >>=-eq-some (evac_loop _ entries t) _ q in
    let s : keep_in_area (to_bytes volume_block_size (area_offs p))
          (to_bytes volume_block_size area_size) r.0
        ≡ left =
      cc (e) in
    (left, t', q, subst (AreEvacuable p) s (keep_in_area-AreEvacuable p r.0))
