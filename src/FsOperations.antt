-- ===== src/FsOperations.antt =====
-- xproxy-beta/cache/cache_fs_operations.cpp: what the readers and the writer do to the table of a
-- volume. One operation is one step: the code holds the lock of the metadata, and where readers
-- share it, they change only the counters of readers, each by one atomic step. Logs and statistics
-- are left out. `none` is a failed X3ME_ENFORCE or assertion.
pub mod Marks
pub mod Commit
pub mod Marked
pub mod NextElem
pub mod FinalFlush
pub mod Reading
pub mod Readers
pub mod Restored
pub mod Writes
pub mod Kept
pub mod Unread
pub mod Evacuation
pub mod Truncation
pub mod Adding
pub mod Overwriting
pub mod NewFragment
use cache_work.Prelude.{
  ℕ, zero, suc, ◌+◌, ◌-◌, ◌*◌, Bool, true, false, not, ltb, ◌==◌, if◌then◌else◌, ◌⊎◌, inl, inr,
  Option, none, some, ◌>>=◌, List, [], ◌∷◌,
}
use cache_work.Units.{object_frag_min_data_size, to_bytes, volume_block_size, min_obj_size}
use cache_work.Range.{Range, frag_range, empty_range}
use cache_work.RangeElem.{RangeElem, inc_readers, dec_readers, has_readers, valid_range_elem}
use cache_work.RangeVector.{
  RangeVector, single, heap, elems, size, at, IterRange, is_none, find_full_range,
}
use cache_work.RangeVector.Update.{rem_range}
use cache_work.RangeVector.Trim.{trim_overlaps}
use cache_work.FsTable.{FsTable, find, put, data_of, rem_entries}
use cache_work.Transactions.{Transaction, make_transaction, invalidate, valid, curr_offset}

-- The loop of fsmd_begin_read over `cnt` elements behind `skip` ones: how many it marked.
unfoldable pub inc_loop : (skip cnt : ℕ) → List RangeElem → ℕ × List RangeElem
inc_loop skip cnt [] = (0, [])
inc_loop (suc skip) cnt (x ∷ xs) = let rest = inc_loop skip cnt xs in (rest.0, x ∷ rest.1)
inc_loop zero zero (x ∷ xs) = (0, x ∷ xs)
inc_loop zero (suc cnt) (x ∷ xs) =
    let rest = inc_loop zero cnt xs in
    if (inc_readers x).0 then (suc rest.0, (inc_readers x).1 ∷ rest.1) else (0, x ∷ xs)

-- The loop of fsmd_end_read, and the one that reverts the marks.
unfoldable pub dec_loop : (skip cnt : ℕ) → List RangeElem → Option (List RangeElem)
dec_loop skip cnt [] = some []
dec_loop (suc skip) cnt (x ∷ xs) = dec_loop skip cnt xs >>= λ ys. some (x ∷ ys)
dec_loop zero zero (x ∷ xs) = some (x ∷ xs)
dec_loop zero (suc cnt) (x ∷ xs) =
    dec_readers x >>= λ y. dec_loop zero cnt xs >>= λ ys. some (y ∷ ys)

pub data BeginRes : Type 0 where
  not_found : BeginRes
  limit_reached : BeginRes
  set : BeginRes

abbrev pub cnt_of : IterRange → ℕ
cnt_of r = r.last - r.first

unfoldable pub begin_marked : IterRange → ℕ × List RangeElem → Option (BeginRes × List RangeElem)
begin_marked r m =
    if m.0 == cnt_of r
    then some (set, m.1)
    else dec_loop r.first m.0 m.1 >>= λ ys. some (limit_reached, ys)

-- The functor of fsmd_begin_read.
unfoldable pub begin_read_elems : Range → List RangeElem → Option (BeginRes × List RangeElem)
begin_read_elems rng xs =
    let r = find_full_range xs rng in
    if is_none r then some (not_found, xs) else begin_marked r (inc_loop r.first (cnt_of r) xs)

-- The functor of fsmd_end_read: whether it found the range.
unfoldable pub end_read_elems : Range → List RangeElem → Option (Bool × List RangeElem)
end_read_elems rng xs =
    let r = find_full_range xs rng in
    if is_none r then some (false, xs) else dec_loop r.first (cnt_of r) xs >>= λ ys. some (true, ys)

-- A vector whose elements were changed in place.
unfoldable pub with_elems : List RangeElem → RangeVector → RangeVector
with_elems xs (single e) = single (at xs 0)
with_elems xs (heap alloc _) = heap alloc xs

-- fs_metadata::read_table_entries with such a functor; a missing key gives `missing`.
unfoldable pub read_at :
    {A : Type 0}
    → ℕ
    → A
    → (List RangeElem → Option (A × List RangeElem))
    → FsTable
    → Option RangeVector
    → Option (A × FsTable)
read_at key missing rdr t none = some (missing, t)
read_at key missing rdr t (some v) =
    rdr (elems v) >>= λ r. some (r.0, record t { fs_nodes = put key (with_elems r.1 v) t.fs_nodes })

-- The transaction is valid where the range was marked.
unfoldable pub transaction_of : ℕ → Range → BeginRes → Transaction
transaction_of key rng not_found = invalidate (make_transaction key rng)
transaction_of key rng limit_reached = invalidate (make_transaction key rng)
transaction_of key rng set = make_transaction key rng

unfoldable pub fsmd_begin_read : ℕ → Range → FsTable → Option (Transaction × FsTable)
fsmd_begin_read key rng t =
    read_at key not_found (begin_read_elems rng) t (find key t.fs_nodes) >>= λ r.
    some (transaction_of key rng r.0, r.1)

-- The answer is `set`: whether the range was found.
unfoldable pub fsmd_end_read : Transaction → FsTable → Option ((Bool × Transaction) × FsTable)
fsmd_end_read rtrans t =
    if not (valid rtrans)
    then none
    else read_at rtrans.fs_node_key false (end_read_elems rtrans.rng) t
        (find rtrans.fs_node_key t.fs_nodes)
      >>= λ r. some ((r.0, invalidate rtrans), r.1)
