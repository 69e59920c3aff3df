-- ===== src/RangeVector/Trim.antt =====
-- trim_overlaps of xproxy-beta/cache/range_vector.cpp. `none` is a failed X3ME_ENFORCE.
use cache_work.Prelude.{
  ℕ, zero, suc, ◌+◌, ◌-◌, ◌&&◌, ltb, leb, if◌then◌else◌, Option, none, some, ◌>>=◌, List,
}
use cache_work.Units.{in_range, min_obj_size, sub64}
use cache_work.Range.{Range, object_range, empty_range, end_of}
use cache_work.RangeElem.{RangeElem, rng_offset, rng_end_offset}
use cache_work.RangeVector.{at, IterRange, is_none, find_in_range}

-- trim_to_first_hole, its loop at position `it` with `rem` elements to go: where the rest of the
-- elements begins (`none` if there is no hole), and where the first row of elements ends.
unfoldable pub first_hole : List RangeElem → (rem it : ℕ) → Option ℕ × ℕ
first_hole xs zero it = (none, rng_end_offset (at xs (it - 1)))
first_hole xs (suc rem) it =
    let rest = first_hole xs rem (it + 1) in
    if ltb (rng_end_offset (at xs (it - 1))) (rng_offset (at xs it))
    then (some (it - 1), rng_end_offset (at xs (it - 1)))
    else rest

-- trim_to_last_hole, its loop at position `it`, which is `cnt` behind the first element.
unfoldable pub last_hole : List RangeElem → (cnt it prev_beg : ℕ) → ℕ
last_hole xs zero it prev_beg =
    if ltb (rng_end_offset (at xs it)) prev_beg then prev_beg else rng_offset (at xs it)
last_hole xs (suc cnt) it prev_beg =
    let rest = last_hole xs cnt (it - 1) (rng_offset (at xs it)) in
    if ltb (rng_end_offset (at xs it)) prev_beg then prev_beg else rest

-- What is left of the elements, and the new `rng_beg`.
unfoldable pub trim_front : List RangeElem → Range → IterRange → Option ℕ × ℕ
trim_front xs rng rngs =
    let row = first_hole xs (rngs.last - (rngs.first + 1)) (rngs.first + 1) in
    if leb (rng_offset (at xs rngs.first)) rng.beg
    then (row.0, if ltb row.1 (end_of rng) then row.1 else end_of rng)
    else (some rngs.first, rng.beg)

-- The new `rng_end`.
unfoldable pub trim_back : List RangeElem → (stop last rng_beg : ℕ) → Option ℕ → Option ℕ
trim_back xs stop last rng_beg none = some stop
trim_back xs stop last rng_beg (some first) =
    let back : ℕ = last - 1 in
    let new_end : ℕ = last_hole xs (back - first) back (rng_end_offset (at xs back)) in
    if leb min_obj_size (sub64 stop rng_beg) && leb stop (rng_end_offset (at xs back))
    then if in_range new_end rng_beg stop then some new_end else none
    else some stop

unfoldable pub trimmed : (rng_beg rng_end : ℕ) → Option Range
trimmed rng_beg rng_end =
    if leb min_obj_size (sub64 rng_end rng_beg)
    then object_range rng_beg (sub64 rng_end rng_beg)
    else some empty_range

unfoldable pub trim_some : List RangeElem → Range → IterRange → Option Range
trim_some xs rng rngs =
    let front = trim_front xs rng rngs in
    trim_back xs (end_of rng) rngs.last front.1 front.0 >>= λ rng_end. trimmed front.1 rng_end

unfoldable pub trim_overlaps : List RangeElem → Range → Option Range
trim_overlaps xs rng =
    let rngs = find_in_range xs rng in
    if is_none rngs
    then some rng
    else if ltb rng.beg (rng_offset (at xs rngs.first))
        && ltb (rng_end_offset (at xs (rngs.last - 1))) (end_of rng)
    then some rng
    else trim_some xs rng rngs
