-- ===== src/FsTable.antt =====
-- xproxy-beta/cache/fs_table.h and xproxy-beta/cache/fs_table.cpp: the map from the key of an object to
-- the vector of its fragments, and the counters kept beside it. google::sparse_hash_map is an
-- association list. `none` is a failed X3ME_ENFORCE; X3ME_ASSERT is not evaluated.
pub mod Nodes
pub mod Data
pub mod Counters
pub mod Adding
pub mod Removing
pub mod Limits
pub mod Stored
pub mod RoundTrip
use cache_work.Prelude.{
  ℕ, zero, suc, ◌+◌, ◌-◌, ◌*◌, ◌/◌, ltb, leb, ◌==◌, Bool, true, false, not, if◌then◌else◌, Option,
  none, some, ◌>>=◌, List, [], ◌∷◌, length,
}
use cache_work.Units.{u64, u32, sub64}
use cache_work.RangeElem.{RangeElem, rng_size, to_range}
use cache_work.RangeVector.{
  RangeVector, of_elem, elems, size, IterRange, is_none, members, find_in_range,
}
use cache_work.RangeVector.Update.{add_range, rem_range}

-- fs_node_t: the key is an MD5 hash, read as a number.
abbrev pub Node : Type 0
Node = ℕ × RangeVector

unfoldable pub find : ℕ → List Node → Option RangeVector
find key [] = none
find key ((k, v) ∷ ns) = if k == key then some v else find key ns

-- The change of a vector in place.
unfoldable pub put : ℕ → RangeVector → List Node → List Node
put key w [] = []
put key w ((k, v) ∷ ns) = if k == key then (k, w) ∷ ns else (k, v) ∷ put key w ns

unfoldable pub erase : ℕ → List Node → List Node
erase key [] = []
erase key ((k, v) ∷ ns) = if k == key then ns else (k, v) ∷ erase key ns

pub record FsTable : Type 0 where
  pub max_allowed_data_size : ℕ
  pub cnt_ranges : ℕ
  pub cnt_entries : ℕ
  pub entries_data_size : ℕ
  pub fs_nodes : List Node

pub data AddRes : Type 0 where
  added : AddRes
  overwrote : AddRes
  skipped : AddRes
  limit_reached : AddRes

-- sizeof(fs_node_t), sizeof(range_elem), sizeof(disk_hdr)
abbrev pub node_bytes : ℕ
node_bytes = 32

abbrev pub elem_bytes : ℕ
elem_bytes = 16

abbrev pub disk_hdr_bytes : ℕ
disk_hdr_bytes = 48

unfoldable pub data_size : (cnt_fs_nodes cnt_ranges : ℕ) → ℕ
data_size cnt_fs_nodes cnt_ranges = u64 (cnt_fs_nodes * node_bytes + cnt_ranges * elem_bytes)

-- The header, the data and the second magic value.
unfoldable pub full_size : ℕ → ℕ
full_size n = u64 (disk_hdr_bytes + n + 8)

-- `none` is a division by zero.
unfoldable pub max_data_size : (disk_space min_object_size : ℕ) → Option ℕ
max_data_size disk_space zero = none
max_data_size disk_space (suc m) = some (u64 (disk_space / suc m * node_bytes))

unfoldable pub make_fs_table : (avail_disk_space min_avg_obj_size : ℕ) → Option FsTable
make_fs_table avail_disk_space min_avg_obj_size =
    max_data_size avail_disk_space min_avg_obj_size >>= λ max. some (record {
      max_allowed_data_size = max;
      cnt_ranges = 0;
      cnt_entries = 0;
      entries_data_size = 0;
      fs_nodes = [];
    })

-- The move constructor: the new table, and what is left of the old one.
unfoldable pub move_table : FsTable → FsTable × FsTable
move_table t =
    (t, record t { cnt_ranges = 0; cnt_entries = 0; entries_data_size = 0; fs_nodes = [] })

unfoldable pub clean_init : FsTable → FsTable
clean_init t = record t { cnt_ranges = 0; fs_nodes = [] }

unfoldable pub size_on_disk : FsTable → ℕ
size_on_disk t = full_size (data_size (length t.fs_nodes) t.cnt_ranges)

unfoldable pub max_size_on_disk : FsTable → ℕ
max_size_on_disk t = full_size t.max_allowed_data_size

unfoldable pub is_limit_reached : FsTable → Bool
is_limit_reached t = not (ltb (data_size (length t.fs_nodes) t.cnt_ranges) t.max_allowed_data_size)

unfoldable pub calc_inc_cnt_ranges : ℕ → ℕ
calc_inc_cnt_ranges rv_size = if rv_size == 0 then 0 else if rv_size == 1 then 2 else 1

unfoldable pub calc_dec_cnt_ranges : (rv_size dec : ℕ) → ℕ
calc_dec_cnt_ranges rv_size dec =
    if rv_size == 1 then 0 else if rv_size == u32 (dec + 1) then u32 (dec + 1) else dec

unfoldable pub on_inc_entries : RangeElem → FsTable → FsTable
on_inc_entries e t = record t {
  cnt_entries = u64 (t.cnt_entries + 1);
  entries_data_size = u64 (t.entries_data_size + rng_size e);
}

unfoldable pub on_dec_entries : (cnt_removed rem_size : ℕ) → FsTable → FsTable
on_dec_entries cnt_removed rem_size t = record t {
  cnt_entries = sub64 t.cnt_entries cnt_removed;
  entries_data_size = sub64 t.entries_data_size rem_size;
}

-- std::accumulate
unfoldable pub data_of : List RangeElem → ℕ
data_of [] = 0
data_of (e ∷ es) = rng_size e + data_of es

unfoldable pub on_dec_entries_of : List RangeElem → FsTable → FsTable
on_dec_entries_of rngs t = on_dec_entries (length rngs) (u64 (data_of rngs)) t

abbrev pub Added : Type 0
Added = Option (AddRes × FsTable)

-- add_entry, where the key is new.
unfoldable pub add_node : ℕ → RangeElem → FsTable → Added
add_node key e t =
    if ltb t.max_allowed_data_size (data_size (length t.fs_nodes + 1) t.cnt_ranges)
    then some (limit_reached, t)
    else some (added, on_inc_entries e (record t { fs_nodes = (key, of_elem e) ∷ t.fs_nodes }))

-- add_entry, where nothing overlaps the new element.
unfoldable pub add_free : ℕ → RangeElem → RangeVector → FsTable → Added
add_free key e rvec t =
    let inc = calc_inc_cnt_ranges (size rvec) in
    if ltb t.max_allowed_data_size (data_size (length t.fs_nodes) (u64 (t.cnt_ranges + inc)))
    then some (limit_reached, t)
    else add_range e rvec >>= λ r.
        if r.inserted
        then some (
          added,
          on_inc_entries e (record t {
            cnt_ranges = u64 (t.cnt_ranges + inc);
            fs_nodes = put key r.vec t.fs_nodes;
          }),
        )
        else some (skipped, record t { fs_nodes = put key r.vec t.fs_nodes })

-- add_entry, where the overlapped elements are to be overwritten.
unfoldable pub add_over : ℕ → RangeElem → IterRange → RangeVector → FsTable → Added
add_over key e rngs rvec t =
    let left : RangeVector = (rem_range rngs rvec).0 in
    let dec = calc_dec_cnt_ranges (size rvec) (size rvec - size left) in
    let inc = calc_inc_cnt_ranges (size left) in
    if ltb t.cnt_ranges dec
    then none
    else if ltb dec inc
    then none
    else add_range e left >>= λ r. some (
      overwrote,
      on_inc_entries e (record (on_dec_entries_of (members (elems rvec) rngs) t) {
        cnt_ranges = u64 (t.cnt_ranges - dec + inc);
        fs_nodes = put key r.vec t.fs_nodes;
      }),
    )

-- The condition `overwrite` is the caller's: it sees the overlapped elements and the new one.
unfoldable pub add_to :
    ℕ → RangeElem → (List RangeElem → RangeElem → Bool) → FsTable → Option RangeVector → Added
add_to key e overwrite t none = add_node key e t
add_to key e overwrite t (some rvec) = to_range e >>= λ rng.
    let rngs = find_in_range (elems rvec) rng in
    if size rvec == 0
    then none
    else if is_none rngs
    then add_free key e rvec t
    else if overwrite (members (elems rvec) rngs) e
    then add_over key e rngs rvec t
    else some (skipped, t)

unfoldable pub add_entry : ℕ → RangeElem → (List RangeElem → RangeElem → Bool) → FsTable → Added
add_entry key e overwrite t = add_to key e overwrite t (find key t.fs_nodes)

-- rem_entries where the key is found: `rem` is the caller's, and yields the size of what it removed.
unfoldable pub rem_found :
    ℕ → (RangeVector → RangeVector × ℕ) → FsTable → RangeVector → Option (Option ℕ × FsTable)
rem_found key rem t rvec =
    let out = rem rvec in
    let cnt_removed : ℕ = size rvec - size out.0 in
    let dec = calc_dec_cnt_ranges (size rvec) cnt_removed in
    if ltb t.cnt_ranges dec
    then none
    else some (
      some cnt_removed,
      on_dec_entries cnt_removed out.1 (record t {
        cnt_ranges = t.cnt_ranges - dec;
        fs_nodes =
            if cnt_removed == size rvec then erase key t.fs_nodes else put key out.0 t.fs_nodes;
      }),
    )

abbrev pub rem_at :
    ℕ → (RangeVector → RangeVector × ℕ) → FsTable → Option RangeVector → Option (Option ℕ × FsTable)
rem_at key rem t none = some (none, t)
rem_at key rem t (some rvec) = rem_found key rem t rvec

unfoldable pub rem_entries :
    ℕ → (RangeVector → RangeVector × ℕ) → FsTable → Option (Option ℕ × FsTable)
rem_entries key rem t = rem_at key rem t (find key t.fs_nodes)

-- The reader's result; `none` where the key is missing.
unfoldable pub read_entries : {A : Type 0} → ℕ → (RangeVector → A) → FsTable → Option A
read_entries key rdr t = find key t.fs_nodes >>= λ rvec. some (rdr rvec)

-- The modifier changes the elements of the vector, not their number.
abbrev pub modify_at :
    ℕ → (RangeVector → RangeVector) → FsTable → Option RangeVector → Bool × FsTable
modify_at key modifier t none = (false, t)
modify_at key modifier t (some rvec) =
    (true, record t { fs_nodes = put key (modifier rvec) t.fs_nodes })

unfoldable pub modify_entries : ℕ → (RangeVector → RangeVector) → FsTable → Bool × FsTable
modify_entries key modifier t = modify_at key modifier t (find key t.fs_nodes)
