-- ===== src/Tests/Vectors.antt =====
-- The theorems on ranges, elements and range_vectors, at the test data.
use cache_work.Prelude.{◌+◌, ◌-◌, ◌^◌, ◌<◌, ◌≡◌, refl, true, some, arith}
use cache_work.Units.{in_range, range_in_range, max_obj_size}
use cache_work.Range.{Range, is_valid, is_valid_frag, frag_range}
use cache_work.Range.Valid.{is_valid_wraps}
use cache_work.RangeVector.{find_full_range, find_in_range, find_exact_range}
use cache_work.RangeVector.Update.{AddResult, add_range, rem_range}
use cache_work.RangeVector.Trim.{trim_overlaps}
use cache_work.RangeVector.FullRange.{FullResult, find_full_range-FullResult}
use cache_work.RangeVector.InRange.{Overlapping, find_in_range-Overlapping}
use cache_work.RangeVector.ExactRange.{ExactResult, find_exact_range-ExactResult}
use cache_work.RangeVector.Insertion.Adding.{AddSpec, add_range-AddSpec}
use cache_work.RangeVector.Removal.{RemSpec, rem_range-RemSpec}
use cache_work.RangeVector.Trimming.{TrimResult, trim_overlaps-TrimResult}
use cache_work.Tests.Data.{
  two_elems, two_vector, hole_elem, both, stored, two_elems-IsSorted, two_vector-IsValid,
  hole_elem-nonempty,
}

add_range-AddSpec_example :
    (a : AddResult) × (add_range hole_elem two_vector ≡ some a) × AddSpec hole_elem two_vector a
add_range-AddSpec_example =
    add_range-AddSpec hole_elem hole_elem-nonempty two_vector two_vector-IsValid

rem_range-RemSpec_example : RemSpec both two_elems (rem_range both two_vector)
rem_range-RemSpec_example =
    rem_range-RemSpec both (omega arith) two_vector (omega arith) two_vector-IsValid

find_full_range-FullResult_example :
    FullResult two_elems two_elems-IsSorted stored
      (omega arith)
      (omega arith)
      (find_full_range two_elems stored)
find_full_range-FullResult_example =
    find_full_range-FullResult two_elems two_elems-IsSorted stored (omega arith) (omega arith)

find_in_range-Overlapping_example : Overlapping two_elems 1000 9500 (find_in_range two_elems stored)
find_in_range-Overlapping_example =
    find_in_range-Overlapping two_elems two_elems-IsSorted stored (omega arith) (omega arith)

find_exact_range-ExactResult_example :
    ExactResult two_elems two_elems-IsSorted stored
      (omega arith)
      (omega arith)
      (find_exact_range two_elems stored)
find_exact_range-ExactResult_example =
    find_exact_range-ExactResult two_elems two_elems-IsSorted stored (omega arith) (omega arith)

trim_overlaps-TrimResult_example :
    (r : Range) × (trim_overlaps two_elems stored ≡ some r) × TrimResult two_elems 1000 9500 r
trim_overlaps-TrimResult_example =
    trim_overlaps-TrimResult two_elems two_elems-IsSorted stored (omega arith) (omega arith)

is_valid_wraps_example :
    (is_valid (2 ^ 64 - 4096) 16384 ≡ true) × (max_obj_size < 2 ^ 64 - 4096 + 16384)
is_valid_wraps_example =
    is_valid_wraps (2 ^ 64 - 4096) 16384 (omega arith) (omega arith) (omega arith) (omega arith)

abbrev r_10_100 : Range
r_10_100 = record { beg = 10; len = 100 }

frag_10_100 : frag_range 10 100 ≡ some r_10_100
unfolding frag_range is_valid_frag in_range range_in_range
frag_10_100 = refl
