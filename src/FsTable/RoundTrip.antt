-- ===== src/FsTable/RoundTrip.antt =====
-- A table that is saved and loaded again.
use cache_work.Prelude.{
  suc, ℕ, ◌+◌, ◌-◌, ◌*◌, ◌^◌, ◌≤◌, ◌<◌, ◌≡◌, refl, ap, sym, ◌∙◌, inl, inr, Bool, true, false, ◌&&◌,
  ltb, leb, ◌==◌, ==_iff, Bool-cases, if◌then◌else◌, Option, none, some, ◌>>=◌, List, [], ◌∷◌, ◌++◌,
  length, length-append, set, arith,
}
use mathlib.Core.List.{append_assoc, append-nil}
use native.Mathlib.Nat.{add_assoc, add-zero, zero-add}
use mathlib.Core.Path.{ap₂, fun_ext}
use cache_work.Units.{u64, u32}
use cache_work.Bytes.{Memory, write_bytes, read_bytes, le_bytes, of_le_bytes, be_bytes}
use cache_work.Bytes.Laws.{
  length-le_bytes, of_le_bytes-le_bytes, length-be_bytes, of_be_bytes-be_bytes,
  read_bytes-write_bytes,
}
use cache_work.Bytes.Writes.{write-eq}
use cache_work.Bytes.Streams.{MemoryWriter, write, DiskReader}
use cache_work.RangeElem.{RangeElem, reset_meta}
use cache_work.RangeVector.{RangeVector, single, heap, elems, size, at}
use cache_work.RangeVector.Sorted.{IsValid}
use cache_work.RangeVector.Stored.{save_vec}
use cache_work.RangeVector.RoundTrip.{
  write-append, read_disk-append, AllWide, vec_bytes, save_vec-write, IsMarked, load_vec-vec_bytes,
  length-vec_bytes,
}
use cache_work.FsTable.{
  FsTable, Node, find, data_size, size_on_disk, full_size, node_bytes, elem_bytes,
  calc_dec_cnt_ranges,
}
use cache_work.FsTable.Nodes.{IsKept, total}
use cache_work.FsTable.Counters.{IsCounted, on_heap}
use cache_work.FsTable.Stored.{
  DiskHdr, table_magic, hdr_bytes, hdr_of_bytes, hdr_of_table, save_nodes, save_table, load_hdr,
  set_elem, clean_loop, counted_ranges, insert_node, is_present, load_nodes, load_table_footer,
  load_table,
}

-- What the load makes of the elements: the temporary members are reset.
reset_elems : List RangeElem → List RangeElem
reset_elems [] = []
reset_elems (x ∷ xs) = reset_meta x ∷ reset_elems xs

reset_vec : RangeVector → RangeVector
reset_vec (single e) = single (reset_meta e)
reset_vec (heap alloc xs) = heap alloc (reset_elems xs)

pub reset_nodes : List Node → List Node
reset_nodes [] = []
reset_nodes ((k, v) ∷ ns) = (k, reset_vec v) ∷ reset_nodes ns

pub length-reset_nodes : (ns : List Node) → length (reset_nodes ns) ≡ length ns
unfolding reset_nodes
length-reset_nodes [] = refl
length-reset_nodes ((k, v) ∷ ns) = ap suc (length-reset_nodes ns)

abbrev pub AllOnDisk : List RangeElem → Type 0
AllOnDisk [] = true ≡ true
AllOnDisk (x ∷ xs) = (x.in_memory ≡ false) × AllOnDisk xs

-- What a vector needs to be stored: an element in place has its mark, the members are in the range of
-- their types, and no element is in memory only.
pub record IsStorable (v : RangeVector) : Type 0 where
  pub marked : IsMarked v
  pub wide : AllWide (elems v)
  pub on_disk : AllOnDisk (elems v)

abbrev pub AreStorable : List Node → Type 0
AreStorable [] = true ≡ true
AreStorable ((k, v) ∷ ns) = (k < 256 ^ 16) × IsStorable v × AreStorable ns

==_comm : (a b : ℕ) → (a == b) ≡ (b == a)
==_comm a b = ground arith

at_middle :
    (pre : List RangeElem) (x : RangeElem) (post : List RangeElem)
    → at (pre ++ (x ∷ post)) (length pre) ≡ x
at_middle [] x post = refl
at_middle (y ∷ pre) x post = at_middle pre x post

set_middle :
    (pre : List RangeElem) (x e : RangeElem) (post : List RangeElem)
    → set (pre ++ (x ∷ post)) (length pre) e ≡ (pre ++ (e ∷ [])) ++ post
set_middle [] x e post = refl
set_middle (y ∷ pre) x e post = ap (λ xs. y ∷ xs) (set_middle pre x e post)

clean_block :
    (alloc : ℕ) (post pre : List RangeElem)
    → AllOnDisk post
    → clean_loop (length post) (length pre) (heap alloc (pre ++ post))
      ≡ heap alloc (pre ++ reset_elems post)
unfolding clean_loop reset_elems set_elem
clean_block alloc [] pre d = refl
clean_block alloc (x ∷ post) pre d =
    let q : length pre + 1 ≡ length (pre ++ (reset_meta x ∷ [])) =
      omega (arith, length-append pre (reset_meta x ∷ [])) in
    simp (at_middle pre x post, d.0, set_middle pre x (reset_meta x) post, q)
      (clean_block alloc post (pre ++ (reset_meta x ∷ [])) d.1
        ∙ ap (heap alloc) (append_assoc pre (reset_meta x ∷ []) (reset_elems post)))

clean_loop-reset_vec :
    (v : RangeVector) → AllOnDisk (elems v) → clean_loop (size v) 0 v ≡ reset_vec v
unfolding reset_vec
clean_loop-reset_vec (single e) d = unfold clean_loop in unfold set_elem in simp (d.0)
clean_loop-reset_vec (heap alloc xs) d = clean_block alloc xs [] d

length-reset_elems : (xs : List RangeElem) → length (reset_elems xs) ≡ length xs
unfolding reset_elems
length-reset_elems [] = refl
length-reset_elems (x ∷ xs) = omega (arith, length-reset_elems xs)

size-reset_vec : (v : RangeVector) → size (reset_vec v) ≡ size v
unfolding reset_vec
size-reset_vec (single e) = refl
size-reset_vec (heap alloc xs) = length-reset_elems xs

write_bytes-nil : (pos : ℕ) (m : Memory) → write_bytes pos [] m ≡ m
unfolding write_bytes
write_bytes-nil pos m = fun_ext λ p. elim (Bool-cases (leb pos p)) [
  | inl t ↦ let u : ltb p (pos + 0) ≡ false = ground arith in rw (t, u) refl
  | inr f ↦ rw f refl
]

write-nil : (w : MemoryWriter) → w.buf_offs ≤ w.buf_size → write [] w ≡ some w
write-nil w h = rw (write-eq [] w (omega arith), write_bytes-nil w.buf_offs w.buf, add-zero) refl

counted_same :
    (n num : ℕ)
    → num + (if n == 1 then 0 else n) < 2 ^ 64
    → counted_ranges num n n ≡ num + (if n == 1 then 0 else n)
unfolding counted_ranges calc_dec_cnt_ranges
counted_same n num b =
    let z : n - n ≡ 0 = omega arith in
    let one : u32 (0 + 1) ≡ 1 = refl in rw (z, one) (ground arith)

hdr_fields :
    (h : DiskHdr)
    → hdr_of_bytes (hdr_bytes h) ≡ record {
      magic = of_le_bytes (le_bytes 8 h.magic);
      cnt_nodes = of_le_bytes (le_bytes 8 h.cnt_nodes);
      cnt_ranges = of_le_bytes (le_bytes 8 h.cnt_ranges);
      cnt_entries = of_le_bytes (le_bytes 8 h.cnt_entries);
      table_data_size = of_le_bytes (le_bytes 8 h.table_data_size);
      entries_data_size = of_le_bytes (le_bytes 8 h.entries_data_size);
    }
unfolding hdr_of_bytes hdr_bytes le_bytes
hdr_fields h = refl

pub eight_bytes : (v : ℕ) → v < 2 ^ 64 → of_le_bytes (le_bytes 8 v) ≡ v
eight_bytes v h = of_le_bytes-le_bytes 8 v (omega arith)

length-hdr_bytes : (h : DiskHdr) → length (hdr_bytes h) ≡ 48
unfolding hdr_bytes le_bytes
length-hdr_bytes h = refl

-- The counters of a table with true counters fit into the header.
hdr_of_bytes-hdr_bytes :
    (t : FsTable) → IsCounted t → hdr_of_bytes (hdr_bytes (hdr_of_table t)) ≡ hdr_of_table t
unfolding hdr_of_table data_size
hdr_of_bytes-hdr_bytes t c =
    rw
      (
        hdr_fields (hdr_of_table t),
        eight_bytes table_magic (omega arith),
        eight_bytes (length t.fs_nodes) (omega (arith, c.within, c.limit)),
        eight_bytes t.cnt_ranges (omega (arith, c.within, c.limit)),
        eight_bytes t.cnt_entries (omega (arith, c.entries)),
        eight_bytes (u64 (length t.fs_nodes * node_bytes + t.cnt_ranges * elem_bytes))
            (omega arith),
        eight_bytes t.entries_data_size (omega (arith, c.data_bytes)),
      )
      refl

hdr_checks :
    (t : FsTable) (rest : List ℕ)
    → ◌≡◌ {A = Option (Bool × DiskHdr × DiskReader)}
        (some (
          (hdr_of_table t).magic == table_magic
              && (hdr_of_table t).table_data_size
                == data_size (hdr_of_table t).cnt_nodes (hdr_of_table t).cnt_ranges,
          hdr_of_table t,
          rest,
        ))
        (some (true, hdr_of_table t, rest))
unfolding hdr_of_table
hdr_checks t rest =
    let d = data_size (length t.fs_nodes) t.cnt_ranges in
    let e : (d == d) ≡ true = (==_iff d d).1 refl in rw e refl

module _ (ptr : RangeVector → ℕ) where
  pub nodes_bytes : List Node → List ℕ
  nodes_bytes [] = []
  nodes_bytes ((k, v) ∷ ns) = be_bytes 16 k ++ (vec_bytes ptr v ++ nodes_bytes ns)

  length-nodes_bytes :
      (ns : List Node)
      → IsKept ns
      → length (nodes_bytes ns) ≡ length ns * node_bytes + total on_heap ns * elem_bytes
  unfolding nodes_bytes total on_heap
  length-nodes_bytes [] k = refl
  length-nodes_bytes ((key, v) ∷ ns) k = omega (
    arith,
    length-append (be_bytes 16 key) (vec_bytes ptr v ++ nodes_bytes ns),
    length-append (vec_bytes ptr v) (nodes_bytes ns),
    length-be_bytes 16 key,
    length-vec_bytes ptr v k.1,
    length-nodes_bytes ns k.3,
  )

  save_nodes-write :
      (ns : List Node) (w : MemoryWriter)
      → w.buf_offs + length (nodes_bytes ns) ≤ w.buf_size
      → save_nodes ptr ns w ≡ write (nodes_bytes ns) w
  unfolding nodes_bytes save_nodes
  save_nodes-write [] w h = sym (write-nil w (omega arith))
  save_nodes-write ((key, v) ∷ ns) w h =
      let a : List ℕ = be_bytes 16 key in
      let b : List ℕ = vec_bytes ptr v in
      let c : List ℕ = nodes_bytes ns in
      let la = length-append a (b ++ c) in
      let lb = length-append b c in
      let w1 : MemoryWriter = record w {
        buf = write_bytes w.buf_offs a w.buf;
        buf_offs = w.buf_offs + length a;
      } in
      let w2 : MemoryWriter = record w1 {
        buf = write_bytes w1.buf_offs b w1.buf;
        buf_offs = w1.buf_offs + length b;
      } in
      let first : write a w ≡ some w1 = write-eq a w (omega arith) in
      let second : write b w1 ≡ some w2 = write-eq b w1 (omega arith) in
      let vec : save_vec ptr v w1 ≡ some w2 = save_vec-write ptr v w1 (omega arith) ∙ second in
      let tail : write c w2 ≡ write (b ++ c) w1 =
        sym (ap (λ o. o >>= write c) second) ∙ write-append b c w1 (omega arith) in
      let all : write (b ++ c) w1 ≡ write (a ++ (b ++ c)) w =
        sym (ap (λ o. o >>= write (b ++ c)) first) ∙ write-append a (b ++ c) w (omega arith) in
      rw (first, vec) (save_nodes-write ns w2 (omega arith) ∙ tail ∙ all)

  not_found : (key : ℕ) (tmp : List Node) → find key tmp ≡ none → is_present (find key tmp) ≡ false
  unfolding is_present
  not_found key tmp h = rw h refl

  -- The keys of the loaded nodes are new.
  abbrev AreNew : List Node → List Node → Type 0
  AreNew [] tmp = true ≡ true
  AreNew ((k, v) ∷ ns) tmp = (find k tmp ≡ none) × AreNew ns tmp

  find-snoc :
      (k key : ℕ) (v : RangeVector) (tmp : List Node)
      → find k tmp ≡ none
      → (key == k) ≡ false
      → find k (tmp ++ ((key, v) ∷ [])) ≡ none
  unfolding find
  find-snoc k key v [] h n = rw n refl
  find-snoc k key v ((j, x) ∷ tmp) h n = ground (arith, find-snoc k key v tmp)

  AreNew-append :
      (key : ℕ) (v : RangeVector) (ns tmp : List Node)
      → AreNew ns tmp
      → find key ns ≡ none
      → AreNew ns (tmp ++ ((key, v) ∷ []))
  unfolding find
  AreNew-append key v [] tmp n h = refl
  AreNew-append key v ((k, x) ∷ ns) tmp n h = elim (Bool-cases (k == key)) [
    | inl t ↦ absurd (cc (rw t at h))
    | inr f ↦
        (find-snoc k key v tmp n.0 (==_comm key k ∙ f), AreNew-append key v ns tmp n.1 (rw f at h))
  ]

  counted_ranges-eq :
      (v : RangeVector) (num : ℕ)
      → IsValid v
      → num + on_heap v < 2 ^ 64
      → counted_ranges num (size v) (size v) ≡ num + on_heap v
  unfolding counted_ranges on_heap calc_dec_cnt_ranges
  counted_ranges-eq v num h b = counted_same (size v) num b

  insert_node-eq :
      (key : ℕ) (v : RangeVector) (tmp : List Node)
      → 0 < size v
      → insert_node key (reset_vec v) tmp ≡ tmp ++ ((key, reset_vec v) ∷ [])
  unfolding insert_node
  insert_node-eq key v tmp h =
      let t : (size (reset_vec v) == 0) ≡ false = ground (arith, size-reset_vec v) in rw t refl

  load_nodes-nodes_bytes :
      (ns : List Node) (num : ℕ) (tmp : List Node) (rest : List ℕ)
      → IsKept ns
      → AreStorable ns
      → AreNew ns tmp
      → num + total on_heap ns < 2 ^ 64
      → load_nodes (length ns) num tmp (nodes_bytes ns ++ rest)
        ≡ some (some (num + total on_heap ns, tmp ++ reset_nodes ns), rest)
  unfolding nodes_bytes load_nodes reset_nodes total
  load_nodes-nodes_bytes [] num tmp rest k s n b = simp (append-nil, add-zero)
  load_nodes-nodes_bytes ((key, v) ∷ ns) num tmp rest k s n b =
      let a : List ℕ = be_bytes 16 key in
      let vb : List ℕ = vec_bytes ptr v in
      let more =
        load_nodes-nodes_bytes ns (num + on_heap v) (tmp ++ ((key, reset_vec v) ∷ [])) rest k.3 s.2
          (AreNew-append key (reset_vec v) ns tmp n.1 k.0) (omega arith) in
      rw
        (
          append_assoc a (vb ++ nodes_bytes ns) rest,
          append_assoc vb (nodes_bytes ns) rest,
          read_disk-append 16 a (vb ++ (nodes_bytes ns ++ rest)) (length-be_bytes 16 key),
          of_be_bytes-be_bytes 16 key s.0,
          not_found key tmp n.0,
          load_vec-vec_bytes ptr v (nodes_bytes ns ++ rest) k.1 s.1.marked s.1.wide k.2,
          clean_loop-reset_vec v s.1.on_disk,
          size-reset_vec v,
          counted_ranges-eq v num k.1 (omega arith),
          insert_node-eq key v tmp k.2,
        )
        (more
          ∙ ap₂ (λ (x : ℕ) (y : List Node). some (some (x, y), rest))
              (add_assoc num (on_heap v) (total on_heap ns))
              (append_assoc tmp ((key, reset_vec v) ∷ []) (reset_nodes ns)))

  -- What save writes.
  pub table_bytes : FsTable → List ℕ
  table_bytes t = hdr_bytes (hdr_of_table t) ++ (nodes_bytes t.fs_nodes ++ le_bytes 8 table_magic)

  data_size-length :
      (t : FsTable)
      → IsCounted t
      → data_size (length t.fs_nodes) t.cnt_ranges ≡ length (nodes_bytes t.fs_nodes)
  unfolding data_size
  data_size-length t c =
      omega (arith, length-nodes_bytes t.fs_nodes c.kept, c.ranges, c.within, c.limit)

  pub length-table_bytes : (t : FsTable) → IsCounted t → length (table_bytes t) ≡ size_on_disk t
  unfolding table_bytes size_on_disk full_size
  length-table_bytes t c = omega (
    arith,
    length-append (hdr_bytes (hdr_of_table t)) (nodes_bytes t.fs_nodes ++ le_bytes 8 table_magic),
    length-append (nodes_bytes t.fs_nodes) (le_bytes 8 table_magic),
    length-hdr_bytes (hdr_of_table t),
    length-le_bytes 8 table_magic,
    data_size-length t c,
    length-nodes_bytes t.fs_nodes c.kept,
    c.ranges,
    c.within,
    c.limit,
  )

  pub save_table-write :
      (t : FsTable) (w : MemoryWriter)
      → IsCounted t
      → w.buf_offs + length (table_bytes t) ≤ w.buf_size
      → save_table ptr t w ≡ write (table_bytes t) w
  unfolding save_table table_bytes
  save_table-write t w c h =
      let a : List ℕ = hdr_bytes (hdr_of_table t) in
      let b : List ℕ = nodes_bytes t.fs_nodes in
      let m : List ℕ = le_bytes 8 table_magic in
      let la = length-append a (b ++ m) in
      let lb = length-append b m in
      let w1 : MemoryWriter = record w {
        buf = write_bytes w.buf_offs a w.buf;
        buf_offs = w.buf_offs + length a;
      } in
      let w2 : MemoryWriter = record w1 {
        buf = write_bytes w1.buf_offs b w1.buf;
        buf_offs = w1.buf_offs + length b;
      } in
      let first : write a w ≡ some w1 = write-eq a w (omega arith) in
      let second : write b w1 ≡ some w2 = write-eq b w1 (omega arith) in
      let nodes : save_nodes ptr t.fs_nodes w1 ≡ some w2 =
        save_nodes-write t.fs_nodes w1 (omega arith) ∙ second in
      let size : w2.buf_offs - w1.buf_offs ≡ data_size (length t.fs_nodes) t.cnt_ranges =
        omega (arith, data_size-length t c) in
      let right : (w2.buf_offs - w1.buf_offs == data_size (length t.fs_nodes) t.cnt_ranges) ≡ true =
        (==_iff _ _).1 size in
      let tail : write m w2 ≡ write (b ++ m) w1 =
        sym (ap (λ o. o >>= write m) second) ∙ write-append b m w1 (omega arith) in
      let all : write (b ++ m) w1 ≡ write (a ++ (b ++ m)) w =
        sym (ap (λ o. o >>= write (b ++ m)) first) ∙ write-append a (b ++ m) w (omega arith) in
      rw (first, nodes, right) (tail ∙ all)

  AreNew-nil : (ns : List Node) → AreNew ns []
  unfolding find
  AreNew-nil [] = refl
  AreNew-nil ((k, v) ∷ ns) = (refl, AreNew-nil ns)

  load_hdr-hdr_bytes :
      (t : FsTable) (rest : List ℕ)
      → IsCounted t
      → load_hdr (hdr_bytes (hdr_of_table t) ++ rest) ≡ some (true, hdr_of_table t, rest)
  unfolding load_hdr
  load_hdr-hdr_bytes t rest c =
      rw
        (
          read_disk-append 48 (hdr_bytes (hdr_of_table t)) rest (length-hdr_bytes (hdr_of_table t)),
          hdr_of_bytes-hdr_bytes t c,
        )
        (hdr_checks t rest)

  load_table_footer-saved :
      (t t0 : FsTable) (rest : List ℕ)
      → IsCounted t
      → load_table_footer
          (hdr_of_table t)
          t0
          (some (total on_heap t.fs_nodes, reset_nodes t.fs_nodes), le_bytes 8 table_magic ++ rest)
        ≡ some (
          true,
          record t0 {
            cnt_ranges = t.cnt_ranges;
            cnt_entries = t.cnt_entries;
            entries_data_size = t.entries_data_size;
            fs_nodes = reset_nodes t.fs_nodes;
          },
          rest,
        )
  unfolding load_table_footer hdr_of_table
  load_table_footer-saved t t0 rest c =
      let same : (t.cnt_ranges == total on_heap t.fs_nodes) ≡ true = (==_iff _ _).1 c.ranges in
      rw
        (
          same,
          read_disk-append 8 (le_bytes 8 table_magic) rest (length-le_bytes 8 table_magic),
          eight_bytes table_magic (omega arith),
        )
        refl

  load_nodes-table :
      (t t0 : FsTable) (rest : List ℕ)
      → IsCounted t
      → AreStorable t.fs_nodes
      → data_size (length t.fs_nodes) t.cnt_ranges ≤ t0.max_allowed_data_size
      → (if ltb t0.max_allowed_data_size (hdr_of_table t).table_data_size
          then some (false, t0, nodes_bytes t.fs_nodes ++ rest)
          else load_nodes (hdr_of_table t).cnt_nodes 0 [] (nodes_bytes t.fs_nodes ++ rest)
            >>= load_table_footer (hdr_of_table t) t0)
        ≡ load_table_footer
            (hdr_of_table t)
            t0
            (some (total on_heap t.fs_nodes, reset_nodes t.fs_nodes), rest)
  unfolding hdr_of_table
  load_nodes-table t t0 rest c s room =
      let fits : ltb t0.max_allowed_data_size (data_size (length t.fs_nodes) t.cnt_ranges) ≡ false =
        ground arith in
      let loaded =
        load_nodes-nodes_bytes t.fs_nodes 0 [] rest c.kept s (AreNew-nil t.fs_nodes)
          (omega (arith, c.ranges, c.within, c.limit)) in
      rw (fits, loaded, zero-add) refl

  pub load_table-table_bytes :
      (t t0 : FsTable) (rest : List ℕ)
      → IsCounted t
      → AreStorable t.fs_nodes
      → data_size (length t.fs_nodes) t.cnt_ranges ≤ t0.max_allowed_data_size
      → load_table t0 (table_bytes t ++ rest)
        ≡ some (
          true,
          record t0 {
            cnt_ranges = t.cnt_ranges;
            cnt_entries = t.cnt_entries;
            entries_data_size = t.entries_data_size;
            fs_nodes = reset_nodes t.fs_nodes;
          },
          rest,
        )
  unfolding load_table table_bytes
  load_table-table_bytes t t0 rest c s room =
      let a : List ℕ = hdr_bytes (hdr_of_table t) in
      let b : List ℕ = nodes_bytes t.fs_nodes in
      let m : List ℕ = le_bytes 8 table_magic in
      rw
        (
          append_assoc a (b ++ m) rest,
          append_assoc b m rest,
          load_hdr-hdr_bytes t (b ++ (m ++ rest)) c,
        )
        (load_nodes-table t t0 (m ++ rest) c s room ∙ load_table_footer-saved t t0 rest c)

  -- A table with true counters whose elements are all on the disk, with members in the range of
  -- their types and a mark on each element in place, is saved into a buffer with room for
  -- size_on_disk bytes, which it fills exactly; and load from these bytes, into a table that
  -- allows as much data, returns true, reads no further, and yields the counters and the nodes
  -- that were saved, with the temporary members of their elements reset.
  pub save_table-load_table :
      (t t0 : FsTable) (w : MemoryWriter) (rest : List ℕ)
      → IsCounted t
      → AreStorable t.fs_nodes
      → data_size (length t.fs_nodes) t.cnt_ranges ≤ t0.max_allowed_data_size
      → w.buf_offs + size_on_disk t ≤ w.buf_size
      → (w' : MemoryWriter) × (save_table ptr t w ≡ some w')
        × (w'.buf_offs ≡ w.buf_offs + size_on_disk t)
        × (load_table t0 (read_bytes (size_on_disk t) w.buf_offs w'.buf ++ rest)
            ≡ some (
              true,
              record t0 {
                cnt_ranges = t.cnt_ranges;
                cnt_entries = t.cnt_entries;
                entries_data_size = t.entries_data_size;
                fs_nodes = reset_nodes t.fs_nodes;
              },
              rest,
            ))
  save_table-load_table t t0 w rest c s room h =
      let l = length-table_bytes t c in
      let b : List ℕ = table_bytes t in
      let w' : MemoryWriter = record w {
        buf = write_bytes w.buf_offs b w.buf;
        buf_offs = w.buf_offs + length b;
      } in
      let there : read_bytes (size_on_disk t) w.buf_offs w'.buf ≡ b =
        ap (λ (n : ℕ). read_bytes n w.buf_offs w'.buf) (sym l)
        ∙ read_bytes-write_bytes w.buf_offs b w.buf in
      (
        w',
        save_table-write t w c (omega arith) ∙ write-eq b w (omega arith),
        ap (λ (n : ℕ). w.buf_offs + n) l,
        rw there (load_table-table_bytes t t0 rest c s room),
      )
