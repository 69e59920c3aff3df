-- ===== src/FsTable/Stored.antt =====
-- load and save of xproxy-beta/cache/fs_table.cpp. The order of the map is the order of its list. A
-- short read throws and is `none`, like a failed X3ME_ENFORCE; where load returns false it leaves the
-- table as it was.
use cache_work.Prelude.{
  ℕ, zero, suc, ◌+◌, ◌-◌, Bool, true, false, not, ◌&&◌, ltb, ◌==◌, if◌then◌else◌, Option, none,
  some, ◌>>=◌, List, [], ◌∷◌, ◌++◌, length, take, drop, set,
}
use cache_work.Units.{u64, sub64}
use cache_work.Bytes.{le_bytes, of_le_bytes, be_bytes, of_be_bytes}
use cache_work.Bytes.Streams.{MemoryWriter, write, DiskReader, read_disk}
use cache_work.RangeElem.{RangeElem, reset_meta}
use cache_work.RangeVector.{RangeVector, single, heap, elems, size, at}
use cache_work.RangeVector.Update.{rem_range}
use cache_work.RangeVector.Stored.{save_vec, load_vec}
use cache_work.FsTable.{FsTable, Node, find, data_size, disk_hdr_bytes, calc_dec_cnt_ranges}

-- disk_hdr
pub record DiskHdr : Type 0 where
  pub magic : ℕ
  pub cnt_nodes : ℕ
  pub cnt_ranges : ℕ
  pub cnt_entries : ℕ
  pub table_data_size : ℕ
  pub entries_data_size : ℕ

abbrev pub table_magic : ℕ
table_magic = 18369561651120553711

unfoldable pub hdr_bytes : DiskHdr → List ℕ
hdr_bytes h =
    le_bytes 8 h.magic
    ++ (le_bytes 8 h.cnt_nodes
        ++ (le_bytes 8 h.cnt_ranges
            ++ (le_bytes 8 h.cnt_entries
                ++ (le_bytes 8 h.table_data_size ++ le_bytes 8 h.entries_data_size))))

abbrev hdr_field : (at : ℕ) → List ℕ → ℕ
hdr_field at bs = of_le_bytes (take 8 (drop at bs))

unfoldable pub hdr_of_bytes : List ℕ → DiskHdr
hdr_of_bytes bs = record {
  magic = hdr_field 0 bs;
  cnt_nodes = hdr_field 8 bs;
  cnt_ranges = hdr_field 16 bs;
  cnt_entries = hdr_field 24 bs;
  table_data_size = hdr_field 32 bs;
  entries_data_size = hdr_field 40 bs;
}

unfoldable pub hdr_of_table : FsTable → DiskHdr
hdr_of_table t = record {
  magic = table_magic;
  cnt_nodes = length t.fs_nodes;
  cnt_ranges = t.cnt_ranges;
  cnt_entries = t.cnt_entries;
  table_data_size = data_size (length t.fs_nodes) t.cnt_ranges;
  entries_data_size = t.entries_data_size;
}

unfoldable pub save_nodes : (ptr : RangeVector → ℕ) → List Node → MemoryWriter → Option MemoryWriter
save_nodes ptr [] w = some w
save_nodes ptr ((key, v) ∷ ns) w =
    write (be_bytes 16 key) w >>= save_vec ptr v >>= save_nodes ptr ns

unfoldable pub save_table : (ptr : RangeVector → ℕ) → FsTable → MemoryWriter → Option MemoryWriter
save_table ptr t w = write (hdr_bytes (hdr_of_table t)) w >>= λ w1.
    save_nodes ptr t.fs_nodes w1 >>= λ w2.
    if not (w2.buf_offs - w1.buf_offs == data_size (length t.fs_nodes) t.cnt_ranges)
    then none
    else write (le_bytes 8 table_magic) w2

unfoldable pub load_hdr : DiskReader → Option (Bool × DiskHdr × DiskReader)
load_hdr r = read_disk disk_hdr_bytes r >>= λ a.
    let h : DiskHdr = hdr_of_bytes a.0 in
    some (h.magic == table_magic && h.table_data_size == data_size h.cnt_nodes h.cnt_ranges, h, a.1)

unfoldable pub set_elem : ℕ → RangeElem → RangeVector → RangeVector
set_elem it e (single x) = single e
set_elem it e (heap alloc xs) = heap alloc (set xs it e)

-- The loop over a loaded vector, with `n` elements to go: it drops the elements that were not on the
-- disk yet.
unfoldable pub clean_loop : (n it : ℕ) → RangeVector → RangeVector
clean_loop zero it v = v
clean_loop (suc n) it v =
    let kept = clean_loop n (it + 1) (set_elem it (reset_meta (at (elems v) it)) v) in
    let r = rem_range (record { first = it; last = it + 1 }) v in
    let dropped = clean_loop n r.1 r.0 in if not (at (elems v) it).in_memory then kept else dropped

-- The loaded vectors with the count of their elements on the heap; `none` is a refused table.
abbrev pub LoadedNodes : Type 0
LoadedNodes = Option (Option (ℕ × List Node) × DiskReader)

unfoldable pub counted_ranges : (num_ranges cnt_before cnt_now : ℕ) → ℕ
counted_ranges num_ranges cnt_before cnt_now =
    sub64 (if ltb 1 cnt_before then u64 (num_ranges + cnt_before) else num_ranges)
      (calc_dec_cnt_ranges cnt_before (cnt_before - cnt_now))

-- We don't keep empty entries.
unfoldable pub insert_node : ℕ → RangeVector → List Node → List Node
insert_node key v tmp = if size v == 0 then tmp else tmp ++ ((key, v) ∷ [])

unfoldable pub is_present : Option RangeVector → Bool
is_present none = false
is_present (some v) = true

unfoldable pub load_nodes : (cnt num_ranges : ℕ) → List Node → DiskReader → LoadedNodes
load_nodes zero num_ranges tmp r = some (some (num_ranges, tmp), r)
load_nodes (suc cnt) num_ranges tmp r = read_disk 16 r >>= λ k.
    if is_present (find (of_be_bytes 0 k.0) tmp)
    then some (none, k.1)
    else load_vec k.1 >>= λ a.
        let v' : RangeVector = clean_loop (size a.1) 0 a.1 in
        if not a.0
        then some (none, a.2)
        else load_nodes cnt (counted_ranges num_ranges (size a.1) (size v'))
            (insert_node (of_be_bytes 0 k.0) v' tmp) a.2

-- Behind the loop.
unfoldable pub load_table_footer :
    DiskHdr → FsTable → Option (ℕ × List Node) × DiskReader → Option (Bool × FsTable × DiskReader)
load_table_footer hdr t (none, r) = some (false, t, r)
load_table_footer hdr t (some (num_ranges, tmp), r) =
    if not (hdr.cnt_ranges == num_ranges)
    then some (false, t, r)
    else read_disk 8 r >>= λ a.
        if not (of_le_bytes a.0 == table_magic)
        then some (false, t, a.1)
        else some (
          true,
          record t {
            cnt_ranges = hdr.cnt_ranges;
            cnt_entries = hdr.cnt_entries;
            entries_data_size = hdr.entries_data_size;
            fs_nodes = tmp;
          },
          a.1,
        )

unfoldable pub load_table : FsTable → DiskReader → Option (Bool × FsTable × DiskReader)
load_table t r = load_hdr r >>= λ a.
    if not a.0
    then some (false, t, a.2)
    else if ltb t.max_allowed_data_size a.1.table_data_size
    then some (false, t, a.2)
    else load_nodes a.1.cnt_nodes 0 [] a.2 >>= load_table_footer a.1 t
