-- ===== src/RangeElem/Stored.antt =====
-- The 16 bytes of a range_elem, as memcpy copies them: xproxy-beta/cache/range_elem.h, the members
-- in their order.
use cache_work.Prelude.{
  ℕ, ◌^◌, ◌<◌, ◌≡◌, refl, true, false, Bool, not, ◌==◌, if◌then◌else◌, List, ◌++◌, length, take,
  drop, arith,
}
use cache_work.Bytes.{le_bytes, of_le_bytes}
use cache_work.RangeElem.{RangeElem}

unfoldable pub range_elem_bytes : RangeElem → List ℕ
range_elem_bytes e =
    le_bytes 1 e.mark
    ++ (le_bytes 1 e.cnt_readers
        ++ (le_bytes 2 e.rng_size_lo
            ++ (le_bytes 4 e.rng_offset_lo
                ++ (le_bytes 4 e.disk_offset_lo
                    ++ (le_bytes 1 e.rng_size_hi
                        ++ (le_bytes 1 e.rng_offset_hi
                            ++ (le_bytes 1 e.disk_offset_hi
                                ++ le_bytes 1 (if e.in_memory then 1 else 0))))))))

abbrev field : (at n : ℕ) → List ℕ → ℕ
field at n bs = of_le_bytes (take n (drop at bs))

unfoldable pub elem_of_bytes : List ℕ → RangeElem
elem_of_bytes bs = record {
  mark = field 0 1 bs;
  cnt_readers = field 1 1 bs;
  rng_size_lo = field 2 2 bs;
  rng_offset_lo = field 4 4 bs;
  disk_offset_lo = field 8 4 bs;
  rng_size_hi = field 12 1 bs;
  rng_offset_hi = field 13 1 bs;
  disk_offset_hi = field 14 1 bs;
  in_memory = not (field 15 1 bs == 0);
}

-- The members are in the range of their types.
pub record IsWide (e : RangeElem) : Type 0 where
  pub mark_wide : e.mark < 2 ^ 8
  pub readers_wide : e.cnt_readers < 2 ^ 8
  pub size_lo_wide : e.rng_size_lo < 2 ^ 16
  pub offset_lo_wide : e.rng_offset_lo < 2 ^ 32
  pub disk_lo_wide : e.disk_offset_lo < 2 ^ 32
  pub size_hi_wide : e.rng_size_hi < 2 ^ 8
  pub offset_hi_wide : e.rng_offset_hi < 2 ^ 8
  pub disk_hi_wide : e.disk_offset_hi < 2 ^ 8

pub length-range_elem_bytes : (e : RangeElem) → length (range_elem_bytes e) ≡ 16
unfolding range_elem_bytes le_bytes
length-range_elem_bytes e = refl

one_byte : (v : ℕ) → v < 2 ^ 8 → of_le_bytes (le_bytes 1 v) ≡ v
unfolding le_bytes of_le_bytes
one_byte v h = omega arith

two_bytes : (v : ℕ) → v < 2 ^ 16 → of_le_bytes (le_bytes 2 v) ≡ v
unfolding le_bytes of_le_bytes
two_bytes v h = omega arith

four_bytes : (v : ℕ) → v < 2 ^ 32 → of_le_bytes (le_bytes 4 v) ≡ v
unfolding le_bytes of_le_bytes
four_bytes v h = omega arith

bool_byte : (b : Bool) → not (of_le_bytes (le_bytes 1 (if b then 1 else 0)) == 0) ≡ b
unfolding le_bytes of_le_bytes
bool_byte true = refl
bool_byte false = refl

abbrev with_fields : (a b c d e f g h : ℕ) → Bool → RangeElem
with_fields a b c d e f g h m = record {
  mark = a;
  cnt_readers = b;
  rng_size_lo = c;
  rng_offset_lo = d;
  disk_offset_lo = e;
  rng_size_hi = f;
  rng_offset_hi = g;
  disk_offset_hi = h;
  in_memory = m;
}

bytes_fields :
    (e : RangeElem)
    → elem_of_bytes (range_elem_bytes e)
      ≡ with_fields
          (of_le_bytes (le_bytes 1 e.mark))
          (of_le_bytes (le_bytes 1 e.cnt_readers))
          (of_le_bytes (le_bytes 2 e.rng_size_lo))
          (of_le_bytes (le_bytes 4 e.rng_offset_lo))
          (of_le_bytes (le_bytes 4 e.disk_offset_lo))
          (of_le_bytes (le_bytes 1 e.rng_size_hi))
          (of_le_bytes (le_bytes 1 e.rng_offset_hi))
          (of_le_bytes (le_bytes 1 e.disk_offset_hi))
          (not (of_le_bytes (le_bytes 1 (if e.in_memory then 1 else 0)) == 0))
unfolding range_elem_bytes elem_of_bytes le_bytes
bytes_fields e = refl

-- A range_elem that is written and read again is the same.
pub elem_of_bytes-range_elem_bytes :
    (e : RangeElem) → IsWide e → elem_of_bytes (range_elem_bytes e) ≡ e
elem_of_bytes-range_elem_bytes e w =
    rw
      (
        bytes_fields e,
        one_byte e.mark w.mark_wide,
        one_byte e.cnt_readers w.readers_wide,
        two_bytes e.rng_size_lo w.size_lo_wide,
        four_bytes e.rng_offset_lo w.offset_lo_wide,
        four_bytes e.disk_offset_lo w.disk_lo_wide,
        one_byte e.rng_size_hi w.size_hi_wide,
        one_byte e.rng_offset_hi w.offset_hi_wide,
        one_byte e.disk_offset_hi w.disk_hi_wide,
        bool_byte e.in_memory,
      )
      refl
