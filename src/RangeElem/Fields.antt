-- ===== src/RangeElem/Fields.antt =====
-- The packed fields of a range_elem hold what was put into them.
use cache_work.Prelude.{ℕ, ◌+◌, ◌*◌, ◌/◌, ◌%◌, ◌^◌, ◌≤◌, ◌<◌, ◌≡◌, false, some, arith, >>=-eq-some}
use cache_work.Units.{
  object_frag_min_data_size, object_frag_max_data_size, max_obj_size, volume_skip_bytes,
  max_volume_size, volume_block_size,
}
use cache_work.RangeElem.{
  RangeElem, rng_offset, rng_size, rng_end_offset, disk_offset, make_range_elem,
  make_zero_range_elem, set_rng_offset, set_rng_size, set_disk_offset, inc_readers, reset_meta,
}

-- The widths of the fields, and the limits of the code on an offset and a size.
pub record IsSound (e : RangeElem) : Type 0 where
  pub size_lo : e.rng_size_lo < 2 ^ 16
  pub size_hi : e.rng_size_hi < 2 ^ 8
  pub offset_lo : e.rng_offset_lo < 2 ^ 32
  pub offset_hi : e.rng_offset_hi < 2 ^ 8
  pub disk_lo : e.disk_offset_lo < 2 ^ 32
  pub disk_hi : e.disk_offset_hi < 2 ^ 8
  pub nonempty : 0 < rng_size e
  pub fits : rng_size e ≤ object_frag_max_data_size
  pub starts : rng_offset e < max_obj_size

-- The end of a sound element does not wrap.
pub rng_end_offset-eq : (e : RangeElem) → IsSound e → rng_end_offset e ≡ rng_offset e + rng_size e
unfolding rng_end_offset
rng_end_offset-eq e s = omega arith

-- What a setter that succeeds has done.
set_rng_offset-some :
    (v : ℕ) (e : RangeElem) {e' : RangeElem}
    → set_rng_offset v e ≡ some e'
    → (v < max_obj_size)
      × (e' ≡ record e { rng_offset_lo = v % 2 ^ 32; rng_offset_hi = v / 2 ^ 32 % 2 ^ 8 })
unfolding set_rng_offset
set_rng_offset-some v e h = ground arith

set_rng_size-some :
    (v : ℕ) (e : RangeElem) {e' : RangeElem}
    → set_rng_size v e ≡ some e'
    → (object_frag_min_data_size ≤ v)
      × (v ≤ object_frag_max_data_size)
      × (e' ≡ record e { rng_size_lo = v % 2 ^ 16; rng_size_hi = v / 2 ^ 16 % 2 ^ 8 })
unfolding set_rng_size
set_rng_size-some v e h = ground arith

set_disk_offset-some :
    (v : ℕ) (e : RangeElem) {e' : RangeElem}
    → v < 2 ^ 55
    → set_disk_offset v e ≡ some e'
    → (v < 2 ^ 40)
      × (e' ≡ record e { disk_offset_lo = v % 2 ^ 32; disk_offset_hi = v / 2 ^ 32 % 2 ^ 8 })
unfolding set_disk_offset
set_disk_offset-some v e b h = ground arith

abbrev packed : ℕ → ℕ → ℕ → RangeElem
packed b l d = record {
  mark = 0;
  cnt_readers = 0;
  rng_size_lo = l % 2 ^ 16;
  rng_offset_lo = b % 2 ^ 32;
  disk_offset_lo = d % 2 ^ 32;
  rng_size_hi = l / 2 ^ 16 % 2 ^ 8;
  rng_offset_hi = b / 2 ^ 32 % 2 ^ 8;
  disk_offset_hi = d / 2 ^ 32 % 2 ^ 8;
  in_memory = false;
}

make_range_elem-some :
    (b l d : ℕ) {e : RangeElem}
    → d < 2 ^ 55
    → make_range_elem b l d ≡ some e
    → (b < max_obj_size)
      × (object_frag_min_data_size ≤ l)
      × (l ≤ object_frag_max_data_size)
      × (d < 2 ^ 40)
      × (e ≡ packed b l d)
unfolding make_range_elem
make_range_elem-some b l d w h =
    let (x, p, h') = >>=-eq-some (set_rng_offset b (reset_meta make_zero_range_elem)) _ h in
    let (y, q, r) = >>=-eq-some (set_rng_size l x) _ h' in
    unfold reset_meta in
    ground (arith, set_rng_offset-some b _ p, set_rng_size-some l x q, set_disk_offset-some d y w r)

-- Where make_range_elem succeeds, with a disk offset below 2 ^ 55 blocks, the getters read back
-- what was packed, without readers and memory mark.
pub make_range_elem-fields :
    (b l d : ℕ) {e : RangeElem}
    → d < 2 ^ 55
    → make_range_elem b l d ≡ some e
    → (rng_offset e ≡ b)
      × (rng_size e ≡ l)
      × (disk_offset e ≡ d)
      × (e.cnt_readers ≡ 0)
      × (e.in_memory ≡ false)
unfolding rng_offset rng_size disk_offset
make_range_elem-fields b l d h e = ground (arith, make_range_elem-some b l d h e)

-- Where make_range_elem succeeds, with a disk offset below 2 ^ 55 blocks, the element keeps to
-- the widths of its fields and the limits of the code.
pub make_range_elem-IsSound :
    (b l d : ℕ) {e : RangeElem} → d < 2 ^ 55 → make_range_elem b l d ≡ some e → IsSound e
unfolding rng_offset rng_size
make_range_elem-IsSound b l d h e = ground (arith, make_range_elem-some b l d h e)

set_rng_offset-total :
    (v : ℕ) (e : RangeElem)
    → v < max_obj_size
    → set_rng_offset v e
      ≡ some (record e { rng_offset_lo = v % 2 ^ 32; rng_offset_hi = v / 2 ^ 32 % 2 ^ 8 })
unfolding set_rng_offset
set_rng_offset-total v e h = ground arith

set_rng_size-total :
    (v : ℕ) (e : RangeElem)
    → object_frag_min_data_size ≤ v
    → v ≤ object_frag_max_data_size
    → set_rng_size v e
      ≡ some (record e { rng_size_lo = v % 2 ^ 16; rng_size_hi = v / 2 ^ 16 % 2 ^ 8 })
unfolding set_rng_size
set_rng_size-total v e h k = ground arith

set_disk_offset-total :
    (v : ℕ) (e : RangeElem)
    → volume_skip_bytes ≤ v * volume_block_size
    → v * volume_block_size < max_volume_size
    → set_disk_offset v e
      ≡ some (record e { disk_offset_lo = v % 2 ^ 32; disk_offset_hi = v / 2 ^ 32 % 2 ^ 8 })
unfolding set_disk_offset
set_disk_offset-total v e h k = ground arith

-- Inside the limits it does not abort.
pub make_range_elem-total :
    (b l d : ℕ)
    → b < max_obj_size
    → object_frag_min_data_size ≤ l
    → l ≤ object_frag_max_data_size
    → volume_skip_bytes ≤ d * volume_block_size
    → d * volume_block_size < max_volume_size
    → make_range_elem b l d ≡ some (packed b l d)
unfolding make_range_elem reset_meta
make_range_elem-total b l d h i j k m =
    rw (set_rng_offset-total b _ h, set_rng_size-total l _ i j, set_disk_offset-total d _ k m)

-- The setters of the metadata leave the range and the disk offset of an element alone.
pub same_elem-meta :
    (e : RangeElem)
    → (rng_offset (reset_meta e) ≡ rng_offset e)
      × (rng_size (reset_meta e) ≡ rng_size e)
      × (disk_offset (reset_meta e) ≡ disk_offset e)
      × (rng_offset (inc_readers e).1 ≡ rng_offset e)
      × (rng_size (inc_readers e).1 ≡ rng_size e)
      × (disk_offset (inc_readers e).1 ≡ disk_offset e)
unfolding reset_meta inc_readers rng_offset rng_size disk_offset
same_elem-meta e = ground arith
