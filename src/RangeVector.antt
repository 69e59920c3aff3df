-- ===== src/RangeVector.antt =====
-- xproxy-beta/cache/range_vector.h and xproxy-beta/cache/range_vector.cpp: the sorted vector of the
-- fragments of one object. This file has its state and its searches; Update has add_range and
-- rem_range, Trim has trim_overlaps. An iterator is a position, and end() is the length.
pub mod Update
pub mod Trim
pub mod Sorted
pub mod FullRange
pub mod ExactRange
pub mod InRange
pub mod Insertion
pub mod Removal
pub mod Trimming
pub mod Stored
pub mod RoundTrip
use cache_work.Prelude.{
  ℕ, zero, suc, ◌+◌, ◌-◌, ◌≤◌, ◌<◌, Bool, true, false, ◌&&◌, ltb, leb, ◌==◌, not, if◌then◌else◌,
  Option, none, some, List, [], ◌∷◌, length, get_or, slice,
}
use cache_work.Units.{u64, in_range, range_in_range, ranges_overlap}
use cache_work.Range.{Range, end_of}
use cache_work.RangeElem.{
  RangeElem, rng_offset, rng_size, rng_end_offset, make_zero_range_elem, set_mark,
}

-- `data_`: one element in place (the small buffer), or container_data, whose `ptr_` is a block
-- of the heap with room for `alloc` elements, of which the listed ones are in use (`size_`).
pub data RangeVector : Type 0 where
  single : RangeElem → RangeVector
  heap : (alloc : ℕ) → List RangeElem → RangeVector

abbrev pub max_ranges : ℕ
max_ranges = 8193

-- `set_empty_data`, the default constructor.
abbrev pub empty_data : RangeVector
empty_data = heap 0 []

-- The constructor from an element.
unfoldable pub of_elem : RangeElem → RangeVector
of_elem e = single (set_mark e)

-- [begin(), end())
abbrev pub elems : RangeVector → List RangeElem
elems (single e) = e ∷ []
elems (heap alloc xs) = xs

abbrev pub size : RangeVector → ℕ
size v = length (elems v)

-- `copy_data` and `copy_range_elem`: the copy's block has no spare room.
unfoldable pub copy_of : RangeVector → RangeVector
copy_of (single e) = single e
copy_of (heap alloc xs) = heap (length xs) xs

-- `move_data` and `move_range_elem`: the new value, and what is left of the old one.
unfoldable pub move_of : RangeVector → RangeVector × RangeVector
move_of v = (v, empty_data)

-- The element that an iterator points to. No use of it below is out of range.
abbrev pub at : List RangeElem → ℕ → RangeElem
at xs i = get_or xs i make_zero_range_elem

-- boost::iterator_range
pub record IterRange : Type 0 where
  pub first : ℕ
  pub last : ℕ

abbrev pub no_elems : List RangeElem → IterRange
no_elems xs = record { first = length xs; last = length xs }

abbrev pub is_none : IterRange → Bool
is_none r = r.first == r.last

abbrev pub members : List RangeElem → IterRange → List RangeElem
members xs r = slice r.first r.last xs

-- std::lower_bound by the offset: the first element that does not start before it.
unfoldable pub lower_bound : ℕ → List RangeElem → ℕ
lower_bound off [] = 0
lower_bound off (x ∷ xs) = if ltb (rng_offset x) off then suc (lower_bound off xs) else 0

-- The loop of find_full_range from position `it`, with `rem` elements to go; `none` is end.
unfoldable pub full_loop : List RangeElem → (stop rem it last_end : ℕ) → Option ℕ
full_loop xs stop zero it last_end = none
full_loop xs stop (suc rem) it last_end =
    let rest = full_loop xs stop rem (it + 1) (rng_end_offset (at xs it)) in
    if ltb last_end (rng_offset (at xs it))
    then none
    else if leb stop (rng_end_offset (at xs it))
    then some it
    else rest

-- `iter_range(it, it2 + 1)`, or the empty result.
abbrev pub upto : List RangeElem → ℕ → Option ℕ → IterRange
upto xs it none = no_elems xs
upto xs it (some it2) = record { first = it; last = it2 + 1 }

-- The part of find_full_range that starts at the element found.
unfoldable pub full_from : List RangeElem → Range → ℕ → IterRange
full_from xs rng it =
    if in_range rng.beg (rng_offset (at xs it)) (rng_end_offset (at xs it))
    then upto xs it
        (full_loop xs (u64 (rng.beg + rng.len)) (length xs - it) it (rng_offset (at xs it)))
    else no_elems xs

-- The case where every element starts before the range.
unfoldable pub full_last : List RangeElem → Range → IterRange
full_last xs rng =
    let l : ℕ = length xs - 1 in
    if ltb 0 (length xs)
      && range_in_range rng.beg (u64 (rng.beg + rng.len)) (rng_offset (at xs l))
          (rng_end_offset (at xs l))
    then record { first = l; last = length xs }
    else no_elems xs

-- Where the search starts: one element back, if the one found starts behind the range.
unfoldable pub full_start : List RangeElem → Range → ℕ
full_start xs rng =
    let it : ℕ = lower_bound rng.beg xs in
    if ltb rng.beg (rng_offset (at xs it)) && ltb 0 it then it - 1 else it

unfoldable pub find_full_range : List RangeElem → Range → IterRange
find_full_range xs rng =
    if lower_bound rng.beg xs == length xs
    then full_last xs rng
    else full_from xs rng (full_start xs rng)

unfoldable pub find_exact_range : List RangeElem → Range → IterRange
find_exact_range xs rng =
    let ret = find_full_range xs rng in
    if not (is_none ret)
      && not (
          rng_offset (at xs ret.first) == rng.beg
          && rng_end_offset (at xs (ret.last - 1)) == end_of rng)
    then no_elems xs
    else ret

-- The overload on an element: its position, or the length.
unfoldable pub find_exact_elem : List RangeElem → RangeElem → ℕ
find_exact_elem xs rng =
    let it : ℕ = lower_bound (rng_offset rng) xs in
    if ltb it (length xs)
      && rng_offset (at xs it) == rng_offset rng
      && rng_size (at xs it) == rng_size rng
    then it
    else length xs

-- The loop of find_in_range: the first element from `it` on that reaches the stop, or end.
unfoldable pub in_loop : List RangeElem → (stop rem it : ℕ) → ℕ
in_loop xs stop zero it = it
in_loop xs stop (suc rem) it =
    let rest = in_loop xs stop rem (it + 1) in
    if leb stop (rng_end_offset (at xs it)) then it else rest

-- The end of the result: one past the element found, unless that one starts behind the range.
unfoldable pub in_last : List RangeElem → (stop it2 : ℕ) → ℕ
in_last xs stop it2 =
    if it2 == length xs
    then it2
    else if leb stop (rng_offset (at xs it2))
    then it2 - 1 + 1
    else it2 + 1

unfoldable pub in_from : List RangeElem → Range → ℕ → IterRange
in_from xs rng it =
    let stop : ℕ = u64 (rng.beg + rng.len) in
    if ranges_overlap rng.beg stop (rng_offset (at xs it)) (rng_end_offset (at xs it)) == 0
    then no_elems xs
    else record { first = it; last = in_last xs stop (in_loop xs stop (length xs - it) it) }

unfoldable pub in_tail : List RangeElem → Range → IterRange
in_tail xs rng =
    let l : ℕ = length xs - 1 in
    if ltb 0 (length xs) && in_range rng.beg (rng_offset (at xs l)) (rng_end_offset (at xs l))
    then record { first = l; last = length xs }
    else no_elems xs

-- Where the search starts: one element back, if that one reaches into the range.
unfoldable pub in_start : List RangeElem → Range → ℕ
in_start xs rng =
    let it : ℕ = lower_bound rng.beg xs in
    if ltb rng.beg (rng_offset (at xs it))
      && ltb 0 it
      && ltb rng.beg (rng_end_offset (at xs (it - 1)))
    then it - 1
    else it

unfoldable pub find_in_range : List RangeElem → Range → IterRange
find_in_range xs rng =
    if lower_bound rng.beg xs == length xs then in_tail xs rng else in_from xs rng (in_start xs rng)
