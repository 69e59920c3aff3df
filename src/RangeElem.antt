-- ===== src/RangeElem.antt =====
-- xproxy-beta/cache/range_elem.h and xproxy-beta/cache/range_elem.cpp: one fragment of an object,
-- packed into 16 bytes. The readers' counter is changed by one atomic step here: the
-- compare-exchange loops are read as the step in which they succeed.
pub mod Fields
pub mod Readers
pub mod Stored
use cache_work.Prelude.{
  ℕ, zero, suc, ◌+◌, ◌-◌, ◌*◌, ◌/◌, ◌%◌, ◌^◌, Bool, true, false, ◌&&◌, ltb, leb, Option, some, none,
  ◌>>=◌, ◌==◌, if◌then◌else◌,
}
use cache_work.Units.{
  u64, u32, in_range, range_in_range, object_frag_min_data_size, object_frag_max_data_size,
  max_obj_size, volume_skip_bytes, max_volume_size, volume_block_size, round_up_pow2, to_bytes,
}
use cache_work.Range.{Range, is_valid_frag, frag_range}

-- The members of range_elem. The disk offset counts volume blocks.
pub record RangeElem : Type 0 where
  pub mark : ℕ
  pub cnt_readers : ℕ
  pub rng_size_lo : ℕ
  pub rng_offset_lo : ℕ
  pub disk_offset_lo : ℕ
  pub rng_size_hi : ℕ
  pub rng_offset_hi : ℕ
  pub disk_offset_hi : ℕ
  pub in_memory : Bool

abbrev pub elem_mark : ℕ
elem_mark = 0

abbrev pub max_cnt_readers : ℕ
max_cnt_readers = 255

-- `(hi << 32) | lo` for a 32-bit lo: the two parts share no bit.
unfoldable pub rng_offset : RangeElem → ℕ
rng_offset e = e.rng_offset_hi * 2 ^ 32 + e.rng_offset_lo

-- The result is a bytes32_t.
unfoldable pub rng_size : RangeElem → ℕ
rng_size e = u32 (e.rng_size_hi * 2 ^ 16 + e.rng_size_lo)

unfoldable pub rng_end_offset : RangeElem → ℕ
unfolding rng_offset rng_size
rng_end_offset e = u64 (rng_offset e + rng_size e)

unfoldable pub disk_offset : RangeElem → ℕ
disk_offset e = e.disk_offset_hi * 2 ^ 32 + e.disk_offset_lo

unfoldable pub disk_end_offset : RangeElem → ℕ
unfolding disk_offset rng_size round_up_pow2
disk_end_offset e =
    u64 (disk_offset e + round_up_pow2 (rng_size e) volume_block_size / volume_block_size)

unfoldable pub set_rng_offset : ℕ → RangeElem → Option RangeElem
set_rng_offset v e =
    if ltb v max_obj_size
    then some (record e { rng_offset_lo = v % 2 ^ 32; rng_offset_hi = v / 2 ^ 32 % 2 ^ 8 })
    else none

unfoldable pub set_rng_size : ℕ → RangeElem → Option RangeElem
unfolding in_range
set_rng_size v e =
    if in_range v object_frag_min_data_size (object_frag_max_data_size + 1)
    then some (record e { rng_size_lo = v % 2 ^ 16; rng_size_hi = v / 2 ^ 16 % 2 ^ 8 })
    else none

unfoldable pub set_disk_offset : ℕ → RangeElem → Option RangeElem
unfolding in_range to_bytes
set_disk_offset v e =
    if in_range (to_bytes volume_block_size v) volume_skip_bytes max_volume_size
    then some (record e { disk_offset_lo = v % 2 ^ 32; disk_offset_hi = v / 2 ^ 32 % 2 ^ 8 })
    else none

unfoldable pub reset_meta : RangeElem → RangeElem
reset_meta e = record e { mark = elem_mark; cnt_readers = 0; in_memory = false }

unfoldable pub set_mark : RangeElem → RangeElem
set_mark e = record e { mark = elem_mark }

unfoldable pub set_in_memory : Bool → RangeElem → RangeElem
set_in_memory v e = record e { in_memory = v }

-- What memset leaves.
abbrev pub make_zero_range_elem : RangeElem
make_zero_range_elem = record {
  mark = 0;
  cnt_readers = 0;
  rng_size_lo = 0;
  rng_offset_lo = 0;
  disk_offset_lo = 0;
  rng_size_hi = 0;
  rng_offset_hi = 0;
  disk_offset_hi = 0;
  in_memory = false;
}

-- The members of `ret` are indeterminate before the setters, which overwrite all of them.
unfoldable pub make_range_elem : ℕ → ℕ → ℕ → Option RangeElem
make_range_elem rng_beg rng_len disk_offs = do
  a ← set_rng_offset rng_beg (reset_meta make_zero_range_elem)
  b ← set_rng_size rng_len a
  set_disk_offset disk_offs b

-- The result of `atomic_inc_readers`: whether the counter was below its limit.
unfoldable pub inc_readers : RangeElem → Bool × RangeElem
inc_readers e =
    if e.cnt_readers == max_cnt_readers
    then (false, e)
    else (true, record e { cnt_readers = e.cnt_readers + 1 })

-- `atomic_dec_readers` aborts where no reader is counted.
unfoldable pub dec_readers : RangeElem → Option RangeElem
dec_readers e =
    if ltb 0 e.cnt_readers then some (record e { cnt_readers = e.cnt_readers - 1 }) else none

unfoldable pub has_readers : RangeElem → Bool
has_readers e = ltb 0 e.cnt_readers

unfoldable pub valid_range_elem : RangeElem → ℕ → ℕ → Bool
unfolding is_valid_frag range_in_range disk_offset disk_end_offset to_bytes rng_offset rng_size
valid_range_elem e disk_offs disk_size =
    is_valid_frag (rng_offset e) (rng_size e)
    && range_in_range (to_bytes volume_block_size (disk_offset e))
        (to_bytes volume_block_size (disk_end_offset e)) disk_offs (u64 (disk_offs + disk_size))

-- `operator==`
unfoldable pub same_elem : RangeElem → RangeElem → Bool
unfolding rng_offset rng_size disk_offset
same_elem a b =
    rng_offset a == rng_offset b && rng_size a == rng_size b && disk_offset a == disk_offset b

unfoldable pub to_range : RangeElem → Option Range
unfolding frag_range rng_offset rng_size
to_range e = frag_range (rng_offset e) (rng_size e)
