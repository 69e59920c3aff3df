-- ===== src/Units.antt =====
-- Sizes and units: x3me_libs-master/x3me_libs/math_funcs.h, xproxy-beta/cache/cache_common.h and
-- xproxy-beta/cache/unit_blocks.h.
-- A bytes64_t is a number below 2 ^ 64, and its sums and products are reduced modulo 2 ^ 64.
pub mod Rounding
use cache_work.Prelude.{
  ℕ, ◌+◌, ◌-◌, ◌*◌, ◌/◌, ◌%◌, ◌^◌, Bool, ◌&&◌, ltb, leb, if◌then◌else◌, Option, some, none, ◌==◌,
}

abbrev pub u64 : ℕ → ℕ
u64 n = n % 2 ^ 64

abbrev pub u32 : ℕ → ℕ
u32 n = n % 2 ^ 32

-- a - b on uint64_t, for a and b below 2 ^ 64.
abbrev pub sub64 : ℕ → ℕ → ℕ
sub64 a b = (a + 2 ^ 64 - b) % 2 ^ 64

-- The constants of cache_common.h, with the volume block of the production build.
abbrev pub store_block_size : ℕ
store_block_size = 4096

abbrev pub volume_block_size : ℕ
volume_block_size = 512

abbrev pub volume_skip_bytes : ℕ
volume_skip_bytes = 1048576

abbrev pub agg_write_meta_size : ℕ
agg_write_meta_size = 4096

abbrev pub agg_write_data_size : ℕ
agg_write_data_size = 4194304

abbrev pub agg_write_block_size : ℕ
agg_write_block_size = agg_write_meta_size + agg_write_data_size

abbrev pub object_frag_min_data_size : ℕ
object_frag_min_data_size = 1

abbrev pub object_frag_max_data_size : ℕ
object_frag_max_data_size = 1048576

abbrev pub object_frag_hdr_size : ℕ
object_frag_hdr_size = 8

abbrev pub max_volume_size : ℕ
max_volume_size = 512 * 2 ^ 40

abbrev pub min_obj_size : ℕ
min_obj_size = 8192

abbrev pub max_obj_size : ℕ
max_obj_size = 8589934592

-- math_funcs.h: `in_range(v, x1, x2)` asks for x1 <= v < x2, `ranges_in_range(x1, x2, y1, y2)` is
-- its overload on two ranges.
unfoldable pub in_range : ℕ → ℕ → ℕ → Bool
in_range v x1 x2 = leb x1 v && ltb v x2

unfoldable pub range_in_range : ℕ → ℕ → ℕ → ℕ → Bool
range_in_range x1 x2 y1 y2 = leb y1 x1 && leb x2 y2

-- The number of bytes that [x1, x2) and [y1, y2) share.
unfoldable pub ranges_overlap : ℕ → ℕ → ℕ → ℕ → ℕ
ranges_overlap x1 x2 y1 y2 =
    let mx : ℕ = if ltb y1 x1 then x1 else y1 in
    let mn : ℕ = if ltb x2 y2 then x2 else y2 in if ltb mx mn then mn - mx else 0

-- `(num + m - 1) & ~(m - 1)` on uint64_t: for a power of two m, the mask clears the remainder by m.
unfoldable pub round_up_pow2 : ℕ → ℕ → ℕ
round_up_pow2 num m = u64 (num + m - 1) / m * m

unfoldable pub divide_round_up : ℕ → ℕ → ℕ
divide_round_up x y = u64 (x + y - 1) / y

unfoldable pub round_to_volume_block_size : ℕ → ℕ
unfolding round_up_pow2
round_to_volume_block_size num = round_up_pow2 num volume_block_size

unfoldable pub round_to_store_block_size : ℕ → ℕ
unfolding round_up_pow2
round_to_store_block_size num = round_up_pow2 num store_block_size

-- object_frag_hdr.h
unfoldable pub object_frag_size : ℕ → ℕ
unfolding round_to_volume_block_size
object_frag_size data_size = u32 (round_to_volume_block_size (object_frag_hdr_size + data_size))

-- unit_blocks.h. A value of unit_blocks is its count of blocks; `size` is BlockSize.
-- The assert of `set_from_bytes` is the result `none`.
unfoldable pub set_from_bytes : ℕ → ℕ → Option ℕ
set_from_bytes size bytes = if bytes % size == 0 then some (bytes / size) else none

unfoldable pub round_up_to_blocks : ℕ → ℕ → Option ℕ
unfolding round_up_pow2 set_from_bytes
round_up_to_blocks size bytes = set_from_bytes size (round_up_pow2 bytes size)

unfoldable pub round_down_to_blocks : ℕ → ℕ → Option ℕ
unfolding set_from_bytes
round_down_to_blocks size bytes = set_from_bytes size (bytes / size * size)

unfoldable pub to_bytes : ℕ → ℕ → ℕ
to_bytes size cnt = u64 (cnt * size)
