-- ===== src/RangeVector/Update.antt =====
-- add_range, add_range_impl, add_at_pos and rem_range of xproxy-beta/cache/range_vector.cpp.
-- `none` is a failed X3ME_ENFORCE. X3ME_ASSERT is not evaluated, as in a build with NDEBUG.
use cache_work.Prelude.{
  ℕ, ◌+◌, ◌-◌, Bool, true, false, ltb, leb, ◌==◌, if◌then◌else◌, Option, none, some, List, [], ◌∷◌,
  length, insert_at, remove_slice,
}
use cache_work.Units.{ranges_overlap}
use cache_work.RangeElem.{RangeElem, rng_offset, rng_end_offset, set_mark}
use cache_work.RangeVector.{
  RangeVector, single, heap, empty_data, max_ranges, at, lower_bound, IterRange,
}

-- The pair that add_range returns (`none` is the null iterator), beside the changed vector.
pub record AddResult : Type 0 where
  pub pos : Option ℕ
  pub inserted : Bool
  pub vec : RangeVector

-- The block grows by one element where it is full.
unfoldable pub add_at_pos : RangeElem → (pos cur_capacity alloc : ℕ) → List RangeElem → RangeVector
add_at_pos rng pos cur_capacity alloc xs =
    heap (if length xs == cur_capacity then cur_capacity + 1 else alloc) (insert_at pos rng xs)

abbrev pub added : RangeElem → (pos cur_capacity alloc : ℕ) → List RangeElem → AddResult
added rng pos cur_capacity alloc xs = record {
  pos = some pos;
  inserted = true;
  vec = add_at_pos rng pos cur_capacity alloc xs;
}

abbrev pub rejected : ℕ → RangeVector → AddResult
rejected pos v = record { pos = some pos; inserted = false; vec = v }

-- Between two neighbours, at position `it`.
unfoldable pub add_between : RangeElem → (it cur_capacity alloc : ℕ) → List RangeElem → AddResult
add_between rng it cur_capacity alloc xs =
    if ltb (rng_offset rng) (rng_end_offset (at xs (it - 1)))
    then rejected (it - 1) (heap alloc xs)
    else if ltb (rng_offset (at xs it)) (rng_end_offset rng)
    then rejected it (heap alloc xs)
    else added rng it cur_capacity alloc xs

unfoldable pub add_range_impl : RangeElem → (cur_capacity alloc : ℕ) → List RangeElem → AddResult
add_range_impl rng cur_capacity alloc xs =
    let it : ℕ = lower_bound (rng_offset rng) xs in
    if it == 0
    then if leb (rng_end_offset rng) (rng_offset (at xs 0))
      then added rng 0 cur_capacity alloc xs
      else rejected 0 (heap alloc xs)
    else if it == length xs
    then if leb (rng_end_offset (at xs (it - 1))) (rng_offset rng)
      then added rng (length xs) cur_capacity alloc xs
      else rejected (it - 1) (heap alloc xs)
    else add_between rng it cur_capacity alloc xs

-- The step from the small buffer to the heap, with a block for two elements.
unfoldable pub add_second : RangeElem → RangeElem → Option AddResult
add_second rng r =
    let ret = add_range_impl rng 2 2 (r ∷ []) in
    if ranges_overlap (rng_offset r) (rng_end_offset r) (rng_offset rng) (rng_end_offset rng) == 0
    then if ret.inserted then some ret else none
    else some (rejected 0 (single r))

unfoldable pub add_range : RangeElem → RangeVector → Option AddResult
add_range rng (single r) = add_second rng r
add_range rng (heap alloc []) =
    some (record { pos = some 0; inserted = true; vec = single (set_mark rng) })
add_range rng (heap alloc (x ∷ [])) = none
add_range rng (heap alloc (x ∷ y ∷ zs)) =
    let xs = x ∷ y ∷ zs in
    if length xs == max_ranges
    then some (record { pos = none; inserted = false; vec = heap alloc xs })
    else some (add_range_impl rng (length xs) alloc xs)

-- The vector after rem_range, and the iterator behind what was removed.
abbrev pub Removed : Type 0
Removed = RangeVector × ℕ

-- The switch on what is left of a block of more than one element.
unfoldable pub rem_from_block : IterRange → List RangeElem → Removed
rem_from_block rng xs =
    let new_size : ℕ = length xs - (rng.last - rng.first) in
    if new_size == 0
    then (empty_data, 0)
    else if new_size == 1
    then if ltb 0 rng.first then (single (at xs 0), 1) else (single (at xs rng.last), 0)
    else (heap new_size (remove_slice rng.first rng.last xs), rng.first)

unfoldable pub rem_range : IterRange → RangeVector → Removed
rem_range rng (single e) = (empty_data, 0)
rem_range rng (heap alloc []) = (heap alloc [], 0)
rem_range rng (heap alloc (x ∷ [])) = (empty_data, 0)
rem_range rng (heap alloc (x ∷ y ∷ zs)) = rem_from_block rng (x ∷ y ∷ zs)
