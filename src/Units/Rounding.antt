-- ===== src/Units/Rounding.antt =====
-- Laws of the rounding functions and of the range tests of math_funcs.h.
use cache_work.Prelude.{ℕ, ◌+◌, ◌%◌, ◌^◌, ◌≤◌, ◌<◌, ◌≡◌, ◌⊎◌, ◌↔◌, true, arith}
use cache_work.Units.{
  in_range, range_in_range, ranges_overlap, object_frag_size, volume_block_size, store_block_size,
  object_frag_hdr_size, object_frag_max_data_size, round_to_store_block_size,
}

pub in_range_iff : (v a b : ℕ) → (in_range v a b ≡ true) ↔ ((a ≤ v) × (v < b))
unfolding in_range
in_range_iff v a b = ((λ h. ground arith), (λ h. ground arith))

pub range_in_range_iff : (a b c d : ℕ) → (range_in_range a b c d ≡ true) ↔ ((c ≤ a) × (b ≤ d))
unfolding range_in_range
range_in_range_iff a b c d = ((λ h. ground arith), (λ h. ground arith))

-- `ranges_overlap` is positive exactly when the two ranges share a byte.
pub ranges_overlap_pos :
    (a b c d : ℕ) → (0 < ranges_overlap a b c d) ↔ ((a < b) × (a < d) × (c < b) × (c < d))
unfolding ranges_overlap
ranges_overlap_pos a b c d = ((λ h. ground arith), (λ h. ground arith))

pub ranges_overlap_zero :
    (a b c d : ℕ) → a < b → c < d → ranges_overlap a b c d ≡ 0 → (b ≤ c) ⊎ (d ≤ a)
unfolding ranges_overlap
ranges_overlap_zero a b c d h k e = ground arith

-- Up to the largest fragment, object_frag_size is the smallest multiple of the volume block that
-- holds the header and the data.
pub object_frag_size_bounds :
    (n : ℕ)
    → n ≤ object_frag_max_data_size
    → (object_frag_hdr_size + n ≤ object_frag_size n)
      × (object_frag_size n < object_frag_hdr_size + n + volume_block_size)
      × (object_frag_size n % volume_block_size ≡ 0)
unfolding object_frag_size
object_frag_size_bounds n h = omega arith

pub round_to_store_block_size_bounds :
    (n : ℕ)
    → n < 2 ^ 63
    → (n ≤ round_to_store_block_size n)
      × (round_to_store_block_size n < n + store_block_size)
      × (round_to_store_block_size n % store_block_size ≡ 0)
unfolding round_to_store_block_size
round_to_store_block_size_bounds n h = omega arith
