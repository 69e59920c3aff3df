-- ===== src/Range/Valid.antt =====
-- What the two `is_valid` tests of range.h promise.
use cache_work.Prelude.{ℕ, ◌+◌, ◌^◌, ◌≤◌, ◌<◌, ◌≡◌, ◌↔◌, true, some, arith}
use cache_work.Units.{object_frag_max_data_size, min_obj_size, max_obj_size}
use cache_work.Range.{Range, is_valid, is_valid_frag, frag_range, end_of}

-- Where the end does not wrap, is_valid is the test for an object range inside the limits.
pub is_valid_iff :
    (beg len : ℕ)
    → beg + len < 2 ^ 64
    → (is_valid beg len ≡ true) ↔ ((min_obj_size ≤ len) × (beg + len ≤ max_obj_size))
unfolding is_valid
is_valid_iff beg len h = ((λ e. ground arith), (λ e. ground arith))

-- A range whose end wraps round 2 ^ 64 to at most max_obj_size passes is_valid, though it lies
-- behind the largest object.
pub is_valid_wraps :
    (beg len : ℕ)
    → beg < 2 ^ 64
    → min_obj_size ≤ len
    → 2 ^ 64 ≤ beg + len
    → beg + len ≤ 2 ^ 64 + max_obj_size
    → (is_valid beg len ≡ true) × (max_obj_size < beg + len)
unfolding is_valid
is_valid_wraps beg len b m w s = ground arith

-- A fragment range that the constructor accepts, with a start below 2 ^ 40, is not empty, not
-- too long, and ends inside the largest object.
pub frag_range_bounds :
    (beg len : ℕ) {r : Range}
    → beg < 2 ^ 40
    → frag_range beg len ≡ some r
    → (0 < r.len)
      × (r.len ≤ object_frag_max_data_size)
      × (end_of r ≡ r.beg + r.len)
      × (end_of r ≤ max_obj_size)
      × (r.beg ≡ beg)
      × (r.len ≡ len)
unfolding frag_range is_valid_frag end_of
frag_range_bounds beg len b e = ground arith
