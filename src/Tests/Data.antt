-- ===== src/Tests/Data.antt =====
-- Test data: three fragments of an object, with bytes 0 to 9999 and 20000 to 29999 stored.
use cache_work.Prelude.{ℕ, zero, suc, ◌≤◌, ◌<◌, refl, false, List, [], ◌∷◌, arith}
use cache_work.Units.{max_obj_size}
use cache_work.Range.{Range}
use cache_work.RangeElem.{RangeElem, rng_offset, rng_size, rng_end_offset}
use cache_work.RangeElem.Fields.{IsSound}
use cache_work.RangeVector.{RangeVector, heap, at, IterRange}
use cache_work.RangeVector.Sorted.{IsSorted, IsValid}
use cache_work.FsTable.{FsTable, data_of, find}
use cache_work.FsTable.Nodes.{total}
use cache_work.FsTable.Counters.{IsCounted, on_heap}

abbrev pub elem_of : (offset size : ℕ) → RangeElem
elem_of offset size = record {
  mark = 0;
  cnt_readers = 0;
  rng_size_lo = size;
  rng_offset_lo = offset;
  disk_offset_lo = 4096;
  rng_size_hi = 0;
  rng_offset_hi = 0;
  disk_offset_hi = 0;
  in_memory = false;
}

abbrev pub two_elems : List RangeElem
two_elems = elem_of 0 10000 ∷ elem_of 20000 10000 ∷ []

abbrev pub two_vector : RangeVector
two_vector = heap 2 two_elems

-- The hole between the two.
abbrev pub hole_elem : RangeElem
hole_elem = elem_of 10000 10000

abbrev pub both : IterRange
both = record { first = 0; last = 2 }

abbrev pub stored : Range
stored = record { beg = 1000; len = 8500 }

nonempty_two : (i : ℕ) → i < 2 → rng_offset (at two_elems i) < rng_end_offset (at two_elems i)
unfolding rng_offset rng_end_offset rng_size
nonempty_two zero h = omega arith
nonempty_two (suc zero) h = omega arith
nonempty_two (suc (suc i)) h = absurd (omega arith)

ordered_two :
    (i j : ℕ) → i < j → j < 2 → rng_end_offset (at two_elems i) ≤ rng_offset (at two_elems j)
unfolding rng_offset rng_end_offset rng_size
ordered_two zero zero h k = absurd (omega arith)
ordered_two zero (suc zero) h k = omega arith
ordered_two zero (suc (suc j)) h k = absurd (omega arith)
ordered_two (suc i) zero h k = absurd (omega arith)
ordered_two (suc i) (suc zero) h k = absurd (omega arith)
ordered_two (suc i) (suc (suc j)) h k = absurd (omega arith)

pub two_elems-IsSorted : IsSorted two_elems
two_elems-IsSorted = record { nonempty = nonempty_two; ordered = ordered_two }

pub two_vector-IsValid : IsValid two_vector
two_vector-IsValid = (refl, (λ e. omega (arith, e)), omega arith, two_elems-IsSorted)

pub hole_elem-nonempty : rng_offset hole_elem < rng_end_offset hole_elem
unfolding rng_offset rng_end_offset rng_size
hole_elem-nonempty = omega arith

pub hole_elem-fits : rng_end_offset hole_elem ≤ max_obj_size
unfolding rng_offset rng_end_offset rng_size
hole_elem-fits = omega arith

pub hole_elem-IsSound : IsSound hole_elem
unfolding rng_offset rng_size
hole_elem-IsSound = record {
  size_lo = omega arith;
  size_hi = omega arith;
  offset_lo = omega arith;
  offset_hi = omega arith;
  disk_lo = omega arith;
  disk_hi = omega arith;
  nonempty = omega arith;
  fits = omega arith;
  starts = omega arith;
}

-- A table with one object, of those two fragments.
abbrev pub one_object : FsTable
one_object = record {
  max_allowed_data_size = 4096;
  cnt_ranges = 2;
  cnt_entries = 2;
  entries_data_size = 20000;
  fs_nodes = (7, two_vector) ∷ [];
}

pub one_object-IsCounted : IsCounted one_object
unfolding total on_heap data_of rng_size find
one_object-IsCounted = record {
  kept = (refl, two_vector-IsValid, omega arith, tt);
  ranges = refl;
  entries = refl;
  data_bytes = refl;
  within = omega arith;
  limit = omega arith;
}
