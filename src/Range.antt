-- ===== src/Range.antt =====
-- xproxy-beta/cache/range.h: the byte range of an object or of a fragment.
pub mod Valid
use cache_work.Prelude.{
  ℕ, ◌+◌, ◌*◌, ◌^◌, Bool, ◌&&◌, ltb, leb, Option, some, none, if◌then◌else◌, ◌==◌,
}
use cache_work.Units.{
  u64, in_range, range_in_range, object_frag_min_data_size, object_frag_max_data_size, min_obj_size,
  max_obj_size,
}

-- The default constructor gives the empty range, beg = len = 0.
pub record Range : Type 0 where
  pub beg : ℕ
  pub len : ℕ

abbrev pub empty_range : Range
empty_range = record { beg = 0; len = 0 }

-- `is_valid(beg, len, frag_rng)`
unfoldable pub is_valid_frag : ℕ → ℕ → Bool
unfolding in_range range_in_range
is_valid_frag beg len =
    in_range len object_frag_min_data_size (object_frag_max_data_size + 1)
    && range_in_range beg (u64 (beg + len)) 0 max_obj_size

-- `is_valid(beg, len)`
unfoldable pub is_valid : ℕ → ℕ → Bool
unfolding range_in_range
is_valid beg len = leb min_obj_size len && range_in_range beg (u64 (beg + len)) 0 max_obj_size

-- The two constructors; a failed X3ME_ENFORCE is `none`.
unfoldable pub frag_range : ℕ → ℕ → Option Range
frag_range beg len = if is_valid_frag beg len then some (record { beg = beg; len = len }) else none

unfoldable pub object_range : ℕ → ℕ → Option Range
object_range beg len = if is_valid beg len then some (record { beg = beg; len = len }) else none

unfoldable pub end_of : Range → ℕ
end_of r = u64 (r.beg + r.len)

unfoldable pub is_empty : Range → Bool
is_empty r = r.len == 0
