-- ===== src/FsTable/Counters.antt =====
-- The counters of an fs_table against what the table holds.
use cache_work.Prelude.{
  ℕ, ◌+◌, ◌-◌, ◌*◌, ◌^◌, ◌≤◌, ◌<◌, ◌≡◌, refl, ◌==◌, if◌then◌else◌, Option, none, some, [], ◌∷◌,
  length, arith,
}
use cache_work.Units.{u64}
use cache_work.RangeVector.{RangeVector, single, heap, size, empty_data, max_ranges}
use cache_work.RangeVector.Sorted.{IsValid}
use cache_work.FsTable.{
  FsTable, node_bytes, elem_bytes, calc_inc_cnt_ranges, calc_dec_cnt_ranges, find, put, erase,
  data_of,
}
use cache_work.FsTable.Nodes.{
  IsKept, total, IsKept-put, IsKept-erase, total-put, total-erase, length-put, length-erase,
}
use cache_work.FsTable.Data.{bytes}

-- The elements of a vector that stand on the heap.
unfoldable pub on_heap : RangeVector → ℕ
on_heap v = if size v == 1 then 0 else size v

-- What a table keeps true: each key stands once, with a valid vector that is not empty; the three
-- counters are those of the vectors, and the table stays within its allowed size.
pub record IsCounted (t : FsTable) : Type 0 where
  pub kept : IsKept t.fs_nodes
  pub ranges : t.cnt_ranges ≡ total on_heap t.fs_nodes
  pub entries : t.cnt_entries ≡ u64 (total size t.fs_nodes)
  pub data_bytes : t.entries_data_size ≡ u64 (total bytes t.fs_nodes)
  pub within : length t.fs_nodes * node_bytes + t.cnt_ranges * elem_bytes ≤ t.max_allowed_data_size
  pub limit : t.max_allowed_data_size < 2 ^ 60

-- The vector of a key: the empty one where the key is missing.
abbrev pub vec_of : Option RangeVector → RangeVector
vec_of none = empty_data
vec_of (some v) = v

pub inc_on_heap :
    (v w : RangeVector) → size w ≡ size v + 1 → on_heap w ≡ on_heap v + calc_inc_cnt_ranges (size v)
unfolding on_heap calc_inc_cnt_ranges
inc_on_heap v w e = ground arith

pub nothing_on_heap : (v : RangeVector) → size v ≡ 0 → (on_heap v ≡ 0) × (bytes v ≡ 0)
unfolding on_heap data_of
nothing_on_heap (heap alloc []) h = (refl, refl)
nothing_on_heap (heap alloc (x ∷ xs)) h = absurd (omega arith)
nothing_on_heap (single e) h = absurd (omega arith)

pub inc_le_two : (n : ℕ) → calc_inc_cnt_ranges n ≤ 2
unfolding calc_inc_cnt_ranges
inc_le_two n = ground arith

pub dec_on_heap :
    (v w : RangeVector)
    → size w ≤ size v
    → size v ≤ max_ranges
    → on_heap w + calc_dec_cnt_ranges (size v) (size v - size w) ≡ on_heap v
unfolding on_heap calc_dec_cnt_ranges
dec_on_heap v w h m = ground arith

-- Where at least one element goes and one comes, the heap holds no more of them than before.
pub dec_ge_inc :
    (v w : RangeVector)
    → size w < size v
    → size v ≤ max_ranges
    → calc_inc_cnt_ranges (size w) ≤ calc_dec_cnt_ranges (size v) (size v - size w)
unfolding calc_inc_cnt_ranges calc_dec_cnt_ranges
dec_ge_inc v w h m = ground arith

pub IsValid-size : (v : RangeVector) → IsValid v → size v ≤ max_ranges
IsValid-size (single e) h = omega arith
IsValid-size (heap alloc xs) h = h.2

-- A change of one vector in place, and of the counters with it.
pub IsCounted-put :
    (key : ℕ) (v w : RangeVector) (t t' : FsTable)
    → IsCounted t
    → find key t.fs_nodes ≡ some v
    → IsValid w
    → 0 < size w
    → t'.fs_nodes ≡ put key w t.fs_nodes
    → t'.max_allowed_data_size ≡ t.max_allowed_data_size
    → t'.cnt_ranges + on_heap v ≡ t.cnt_ranges + on_heap w
    → ((n : ℕ) → n + size v ≡ total size t.fs_nodes + size w → t'.cnt_entries ≡ u64 n)
    → ((n : ℕ) → n + bytes v ≡ total bytes t.fs_nodes + bytes w → t'.entries_data_size ≡ u64 n)
    → length t.fs_nodes * node_bytes + t'.cnt_ranges * elem_bytes ≤ t.max_allowed_data_size
    → IsCounted t'
IsCounted-put key v w t t' c f valid some_elems nodes max ranges entries data_size fits =
    let ns = t.fs_nodes in
    record {
      kept = rw nodes (IsKept-put key w ns valid some_elems c.kept);
      ranges = rw nodes (omega (arith, total-put on_heap key w v ns f, c.ranges));
      entries = rw nodes (entries _ (total-put size key w v ns f));
      data_bytes = rw nodes (data_size _ (total-put bytes key w v ns f));
      within = rw (nodes, length-put key w ns, max) fits;
      limit = rw max c.limit;
    }

-- The removal of a key, with its vector.
pub IsCounted-erase :
    (key : ℕ) (v : RangeVector) (t t' : FsTable)
    → IsCounted t
    → find key t.fs_nodes ≡ some v
    → t'.fs_nodes ≡ erase key t.fs_nodes
    → t'.max_allowed_data_size ≡ t.max_allowed_data_size
    → t'.cnt_ranges + on_heap v ≡ t.cnt_ranges
    → ((n : ℕ) → n + size v ≡ total size t.fs_nodes → t'.cnt_entries ≡ u64 n)
    → ((n : ℕ) → n + bytes v ≡ total bytes t.fs_nodes → t'.entries_data_size ≡ u64 n)
    → IsCounted t'
IsCounted-erase key v t t' c f nodes max ranges entries data_size =
    let ns = t.fs_nodes in
    record {
      kept = rw nodes (IsKept-erase key ns c.kept);
      ranges = rw nodes (omega (arith, total-erase on_heap key v ns f, c.ranges));
      entries = rw nodes (entries _ (total-erase size key v ns f));
      data_bytes = rw nodes (data_size _ (total-erase bytes key v ns f));
      within = rw (nodes, max) (omega (arith, length-erase key v ns f, c.within));
      limit = rw max c.limit;
    }
