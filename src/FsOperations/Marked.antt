-- ===== src/FsOperations/Marked.antt =====
-- fsmd_commit_disk_write: which elements it marks as written, and what it leaves alone.
use cache_work.Prelude.{
  ℕ, zero, suc, ◌+◌, ◌*◌, ◌≤◌, ◌<◌, ◌≡◌, ◌≢◌, inl, inr, refl, sym, subst, ap, ◌∙◌, Bool, true,
  false, ◌&&◌, ◌||◌, ◌==◌, leb, ==_iff, Bool-cases, if◌then◌else◌, Option, some, none, Option-cases,
  List, [], ◌∷◌, length, set, length-set, arith,
}
use cache_work.Units.{u64, to_bytes, volume_block_size, agg_write_block_size}
use cache_work.RangeElem.{RangeElem, rng_offset, rng_size, rng_end_offset, set_in_memory}
use cache_work.RangeVector.{
  RangeVector, single, heap, elems, size, at, lower_bound, find_exact_elem,
}
use cache_work.RangeVector.Sorted.{IsSorted, elems-IsSorted}
use cache_work.FsTable.{Node, find, put, modify_entries}
use cache_work.FsTable.Nodes.{find-IsValid, IsKept, find-put_same, find-put_other}
use cache_work.FsMetadata.Table.{find_exact_elem-le}
use cache_work.FsMetadata.{
  FsMetadata, modify_table_entries, go_to_next_wr_pos, inc_write_pos, wrap_write_pos,
}
use cache_work.AggWriteMeta.{AggMetaEntry, release_entries}
use cache_work.AggWriteBlock.{AggWriteBlock, meta_blocks, end_disk_write}
use cache_work.FsOperations.{with_elems}
use cache_work.FsOperations.Restored.{elems-with_elems, with_elems_same}
use cache_work.FsOperations.Unread.{lower_bound-at_elem}
use cache_work.FsOperations.Commit.{
  mark_written, mark_group, mark_vec, behind_group, next_entry, commit_loop, fsmd_commit_disk_write,
}

-- The same change, one entry at a time.
unfoldable one_by_one : ℕ → List AggMetaEntry → List RangeElem → List RangeElem
one_by_one key [] xs = xs
one_by_one key (e ∷ es) xs = one_by_one key es (if e.key == key then mark_written e xs else xs)

unfoldable one_by_one_at : ℕ → List AggMetaEntry → Option RangeVector → Option RangeVector
one_by_one_at key es none = none
one_by_one_at key es (some v) = some (with_elems (one_by_one key es (elems v)) v)

length-mark_written :
    (e : AggMetaEntry) (xs : List RangeElem) → length (mark_written e xs) ≡ length xs
unfolding mark_written
length-mark_written e xs = elim (Bool-cases (find_exact_elem xs e.rng == length xs)) [
  | inl t ↦ rw t refl
  | inr f ↦ rw f (length-set xs _ _)
]

length-mark_group :
    (key : ℕ) (es : List AggMetaEntry) (xs : List RangeElem)
    → length (mark_group key es xs) ≡ length xs
unfolding mark_group
length-mark_group key [] xs = refl
length-mark_group key (e ∷ es) xs = elim (Bool-cases (e.key == key)) [
  | inl t ↦ rw t (length-mark_group key es (mark_written e xs) ∙ length-mark_written e xs)
  | inr f ↦ rw f refl
]

one_by_one-other_key :
    (key : ℕ) (e : AggMetaEntry) (es : List AggMetaEntry) (xs : List RangeElem)
    → (e.key == key) ≡ false
    → one_by_one key (e ∷ es) xs ≡ one_by_one key es xs
unfolding one_by_one
one_by_one-other_key key e es xs f = rw f refl

-- The functor takes the entries in front of behind_group, which are all of its key.
one_by_one-group :
    (key : ℕ) (es : List AggMetaEntry) (xs : List RangeElem)
    → one_by_one key es xs ≡ one_by_one key (behind_group key es) (mark_group key es xs)
unfolding one_by_one behind_group mark_group
one_by_one-group key [] xs = refl
one_by_one-group key (e ∷ es) xs = elim (Bool-cases (e.key == key)) [
  | inl t ↦ rw t (one_by_one-group key es (mark_written e xs))
  | inr f ↦ rw f (sym (one_by_one-other_key key e es xs f))
]

one_by_one-others :
    (key other : ℕ) (es : List AggMetaEntry) (xs : List RangeElem)
    → other ≢ key
    → one_by_one other es xs ≡ one_by_one other (behind_group key es) xs
unfolding one_by_one behind_group
one_by_one-others key other [] xs n = refl
one_by_one-others key other (e ∷ es) xs n = elim (Bool-cases (e.key == key)) [
  | inl t ↦
      let f : (e.key == other) ≡ false = ground arith in
      rw (t, f) (one_by_one-others key other es xs n)
  | inr f ↦ rw f refl
]

behind_group-shorter : (key : ℕ) (es : List AggMetaEntry) → length (behind_group key es) ≤ length es
unfolding behind_group
behind_group-shorter key [] = omega arith
behind_group-shorter key (e ∷ es) = ground (arith, behind_group-shorter key es)

with_elems_twice :
    (v : RangeVector) (xs ys : List RangeElem) → with_elems ys (with_elems xs v) ≡ with_elems ys v
unfolding with_elems
with_elems_twice (single e) xs ys = refl
with_elems_twice (heap alloc zs) xs ys = refl

abbrev with_nodes : List Node → FsMetadata → FsMetadata
with_nodes ns md = record md { table = record md.table { fs_nodes = ns } }

-- An entry whose key is not in the table changes nothing.
one_by_one_at-missing :
    (k : ℕ) (e : AggMetaEntry) (es : List AggMetaEntry) (ns : List Node)
    → find e.key ns ≡ none
    → one_by_one_at k es (find k ns) ≡ one_by_one_at k (e ∷ es) (find k ns)
unfolding one_by_one_at one_by_one
one_by_one_at-missing k e es ns n = elim (Bool-cases (e.key == k)) [
  | inl t ↦
      let q : find k ns ≡ none = ap (λ z. find z ns) (sym ((==_iff e.key k).0 t)) ∙ n in rw q refl
  | inr f ↦ elim (Option-cases (find k ns)) [ inl q ↦ rw q refl | inr (v, q) ↦ rw (q, f) refl ]
]

one_by_one_at-group :
    (key k : ℕ) (es : List AggMetaEntry) (v : RangeVector) (ns : List Node)
    → find key ns ≡ some v
    → one_by_one_at k (behind_group key es) (find k (put key (mark_vec key es v) ns))
      ≡ one_by_one_at k es (find k ns)
unfolding one_by_one_at mark_vec
one_by_one_at-group key k es v ns f = elim (Bool-cases (k == key)) [
  | inl t ↦
      let q : k ≡ key = (==_iff k key).0 t in
      rw
        (
          q,
          find-put_same key (mark_vec key es v) v ns f,
          f,
          elems-with_elems v (mark_group key es (elems v)) (length-mark_group key es (elems v)),
          with_elems_twice v (mark_group key es (elems v))
              (one_by_one key (behind_group key es) (mark_group key es (elems v))),
          one_by_one-group key es (elems v),
        )
        refl
  | inr n ↦
      let other : k ≢ key = ground (arith, (==_iff k key).1) in
      rw (find-put_other key k (mark_vec key es v) ns other) (elim (Option-cases (find k ns)) [
        | inl q ↦ rw q refl
        | inr (w, q) ↦ rw (q, one_by_one-others key k es (elems w) other) refl
      ])
]

one_by_one_at-none_left : (k : ℕ) (o : Option RangeVector) → o ≡ one_by_one_at k [] o
unfolding one_by_one_at one_by_one
one_by_one_at-none_left k none = refl
one_by_one_at-none_left k (some v) = rw (with_elems_same v) refl

behind_group-fewer :
    (e : AggMetaEntry) (es : List AggMetaEntry) → length (behind_group e.key (e ∷ es)) ≤ length es
unfolding behind_group
behind_group-fewer e es =
    let t : (e.key == e.key) ≡ true = (==_iff _ _).1 refl in rw t (behind_group-shorter e.key es)

modify_table_entries-missing :
    (key : ℕ) (f : RangeVector → RangeVector) (md : FsMetadata)
    → find key md.table.fs_nodes ≡ none
    → modify_table_entries key f md ≡ (false, md)
unfolding modify_table_entries modify_entries
modify_table_entries-missing key f md n = rw n refl

modify_table_entries-found :
    (key : ℕ) (f : RangeVector → RangeVector) (md : FsMetadata) (v : RangeVector)
    → find key md.table.fs_nodes ≡ some v
    → modify_table_entries key f md ≡ (true, with_nodes (put key (f v) md.table.fs_nodes) md)
unfolding modify_table_entries modify_entries
modify_table_entries-found key f md v q = rw q refl

-- With enough fuel the loop returns, and changes only the vectors, as one entry at a time does.
commit_loop-one_by_one :
    (fuel : ℕ) (es : List AggMetaEntry) (md : FsMetadata)
    → length es ≤ fuel
    → (ns : List Node) × (commit_loop fuel es md ≡ some (with_nodes ns md))
      × ((k : ℕ) → find k ns ≡ one_by_one_at k es (find k md.table.fs_nodes))
unfolding commit_loop next_entry
commit_loop-one_by_one fuel [] md h =
    (md.table.fs_nodes, refl, λ k. one_by_one_at-none_left k (find k md.table.fs_nodes))
commit_loop-one_by_one zero (e ∷ es) md h = absurd (omega arith)
commit_loop-one_by_one (suc fuel) (e ∷ es) md h =
    let nodes : List Node = md.table.fs_nodes in
    let mark : RangeVector → RangeVector = mark_vec e.key (e ∷ es) in
    let round : Bool × FsMetadata → Option FsMetadata =
      λ r. commit_loop fuel (next_entry r.0 e es) r.1 in
    elim (Option-cases (find e.key nodes)) [
      | inl n ↦
          let (ns, q, same) = commit_loop-one_by_one fuel es md (omega arith) in
          (
            ns,
            ap round (modify_table_entries-missing e.key mark md n) ∙ q,
            λ k. same k ∙ one_by_one_at-missing k e es nodes n,
          )
      | inr (v, f) ↦
          let md' : FsMetadata = with_nodes (put e.key (mark_vec e.key (e ∷ es) v) nodes) md in
          let (ns, q, same) =
            commit_loop-one_by_one fuel (behind_group e.key (e ∷ es)) md'
              (omega (arith, behind_group-fewer e es)) in
          (
            ns,
            ap round (modify_table_entries-found e.key mark md v f) ∙ q,
            λ k. same k ∙ one_by_one_at-group e.key k (e ∷ es) v nodes f,
          )
    ]

-- One of the entries is of this fragment of the key.
unfoldable pub is_written : ℕ → List AggMetaEntry → RangeElem → Bool
is_written key [] x = false
is_written key (e ∷ es) x =
    (e.key == key && (rng_offset x == rng_offset e.rng && rng_size x == rng_size e.rng))
    || is_written key es x

-- An element after the commit of the entries.
unfoldable pub settled : ℕ → List AggMetaEntry → RangeElem → RangeElem
settled key es x = if is_written key es x then set_in_memory false x else x

get_or-set_same :
    (xs : List RangeElem) (i : ℕ) (v : RangeElem) → i < length xs → at (set xs i v) i ≡ v
get_or-set_same [] i v b = absurd (omega arith)
get_or-set_same (x ∷ xs) zero v b = refl
get_or-set_same (x ∷ xs) (suc i) v b = get_or-set_same xs i v (omega arith)

get_or-set_other :
    (xs : List RangeElem) (i j : ℕ) (v : RangeElem) → i ≢ j → at (set xs i v) j ≡ at xs j
get_or-set_other [] i j v n = refl
get_or-set_other (x ∷ xs) zero zero v n = absurd (n refl)
get_or-set_other (x ∷ xs) zero (suc j) v n = refl
get_or-set_other (x ∷ xs) (suc i) zero v n = refl
get_or-set_other (x ∷ xs) (suc i) (suc j) v n = get_or-set_other xs i j v (λ q. n (ap suc q))

abbrev is_frag : AggMetaEntry → RangeElem → Bool
is_frag e x = rng_offset x == rng_offset e.rng && rng_size x == rng_size e.rng

module _ (e : AggMetaEntry) (xs : List RangeElem) (s : IsSorted xs) where
  -- The search finds the element of the fragment, and no other one.
  find_exact_elem-at :
      (i : ℕ) → i < length xs → is_frag e (at xs i) ≡ true → find_exact_elem xs e.rng ≡ i
  unfolding find_exact_elem
  find_exact_elem-at i b h =
      let o : rng_offset (at xs i) ≡ rng_offset e.rng = ground arith in
      let q : lower_bound (rng_offset e.rng) xs ≡ i =
        ap (λ n. lower_bound n xs) (sym o) ∙ lower_bound-at_elem xs i s b in
      rw q (ground arith)

  find_exact_elem-is_frag :
      find_exact_elem xs e.rng < length xs → is_frag e (at xs (find_exact_elem xs e.rng)) ≡ true
  unfolding find_exact_elem
  find_exact_elem-is_frag h = ground arith

  at-mark_written :
      (i : ℕ)
      → i < length xs
      → at (mark_written e xs) i
        ≡ (if is_frag e (at xs i) then set_in_memory false (at xs i) else at xs i)
  unfolding mark_written
  at-mark_written i b =
      let rit : ℕ = find_exact_elem xs e.rng in
      elim (Bool-cases (is_frag e (at xs i))) [
        | inl t ↦
            let q = find_exact_elem-at i b t in
            let f : (i == length xs) ≡ false = ground arith in
            rw (t, q, f) (get_or-set_same xs i _ b)
        | inr n ↦ elim (Bool-cases (rit == length xs)) [
          | inl q ↦ rw (n, q) refl
          | inr f ↦
              let le : rit ≤ length xs = find_exact_elem-le xs e.rng in
              let frag = find_exact_elem-is_frag (ground arith) in
              let other : rit ≢ i = λ q. absurd (cc (ap (λ m. is_frag e (at xs m)) q)) in
              rw (n, f) (get_or-set_other xs rit i _ other)
        ]
      ]

  mark_written-ends :
      (i : ℕ)
      → i < length xs
      → (rng_offset (at (mark_written e xs) i) ≡ rng_offset (at xs i))
        × (rng_end_offset (at (mark_written e xs) i) ≡ rng_end_offset (at xs i))
  unfolding set_in_memory rng_offset rng_end_offset rng_size
  mark_written-ends i b = elim (Bool-cases (is_frag e (at xs i))) [
    | inl t ↦
        let q : at (mark_written e xs) i ≡ set_in_memory false (at xs i) =
          at-mark_written i b ∙ rw t refl in
        (ap rng_offset q, ap rng_end_offset q)
    | inr f ↦
        let q : at (mark_written e xs) i ≡ at xs i = rw f at (at-mark_written i b) in
        (ap rng_offset q, ap rng_end_offset q)
  ]

  mark_written-IsSorted : IsSorted (mark_written e xs)
  mark_written-IsSorted =
      let len = length-mark_written e xs in
      record {
        nonempty = λ i b.
            let (o, z) = mark_written-ends i (omega arith) in
            rw (o, z) (s.nonempty i (omega arith));
        ordered = λ i j l b.
            let (o, z) = mark_written-ends i (omega arith) in
            let (p, y) = mark_written-ends j (omega arith) in
            rw (z, p) (s.ordered i j l (omega arith));
      }

set_in_memory_twice :
    (x : RangeElem) → set_in_memory false (set_in_memory false x) ≡ set_in_memory false x
unfolding set_in_memory
set_in_memory_twice x = refl

settled_once :
    (key : ℕ) (e : AggMetaEntry) (es : List AggMetaEntry) (x : RangeElem)
    → settled key es (if is_frag e x then set_in_memory false x else x)
      ≡ (if is_frag e x || is_written key es x then set_in_memory false x else x)
unfolding settled
settled_once key e es x = elim (Bool-cases (is_frag e x)) [
  | inr f ↦ rw f refl
  | inl t ↦ rw t (elim (Bool-cases (is_written key es (set_in_memory false x))) [
    | inl w ↦ rw w (set_in_memory_twice x)
    | inr w ↦ rw w refl
  ])
]

-- One entry after the other marks exactly the elements whose fragments are among the entries.
one_by_one-settled :
    (key : ℕ) (es : List AggMetaEntry) (xs : List RangeElem)
    → IsSorted xs
    → (length (one_by_one key es xs) ≡ length xs)
      × ((i : ℕ) → i < length xs → at (one_by_one key es xs) i ≡ settled key es (at xs i))
unfolding one_by_one settled is_written
one_by_one-settled key [] xs s = (refl, λ i b. refl)
one_by_one-settled key (e ∷ es) xs s = elim (Bool-cases (e.key == key)) [
  | inr f ↦ rw f (one_by_one-settled key es xs s)
  | inl t ↦
      let (len, same) =
        one_by_one-settled key es (mark_written e xs) (mark_written-IsSorted e xs s) in
      let len' = length-mark_written e xs in
      rw t (
        len ∙ len',
        λ i b.
            same i (omega arith)
            ∙ ap (settled key es) (at-mark_written e xs s i b)
            ∙ settled_once key e es (at xs i),
      )
]

-- The vector of a key after the commit: none where there was none, and otherwise as many elements,
-- each one settled.
abbrev pub IsSettled : ℕ → List AggMetaEntry → Option RangeVector → Option RangeVector → Type 0
IsSettled key es none o = o ≡ none
IsSettled key es (some v) o =
    (w : RangeVector) × (o ≡ some w)
    × (size w ≡ size v)
    × ((i : ℕ) → i < size v → at (elems w) i ≡ settled key es (at (elems v) i))

one_by_one_at-IsSettled :
    (key : ℕ) (es : List AggMetaEntry) (ns : List Node)
    → IsKept ns
    → IsSettled key es (find key ns) (one_by_one_at key es (find key ns))
unfolding one_by_one_at
one_by_one_at-IsSettled key es ns kept = elim (Option-cases (find key ns)) [
  | inl n ↦ rw n refl
  | inr (v, f) ↦
      let s = elems-IsSorted v (find-IsValid key ns v kept f).0 in
      let (len, same) = one_by_one-settled key es (elems v) s in
      let q = elems-with_elems v (one_by_one key es (elems v)) len in
      rw f (_, refl, ap length q ∙ len, λ i b. ap (λ l. at l i) q ∙ same i b)
]

next_wr_pos-with_nodes :
    (data_offs end_data_offs : ℕ) (ns : List Node) (md : FsMetadata)
    → ((go_to_next_wr_pos data_offs end_data_offs (with_nodes ns md)).ops
        ≡ (go_to_next_wr_pos data_offs end_data_offs md).ops)
      × ((go_to_next_wr_pos data_offs end_data_offs (with_nodes ns md)).table.fs_nodes ≡ ns)
unfolding go_to_next_wr_pos inc_write_pos wrap_write_pos
next_wr_pos-with_nodes data_offs end_data_offs ns md =
    elim (Bool-cases (leb (u64 (md.ops.write_pos + 2 * agg_write_block_size)) end_data_offs)) [
      | inl t ↦ rw t (refl, refl)
      | inr f ↦ rw f (refl, refl)
    ]

-- Where the vectors of the table are valid and the disk offset is the write position,
-- fsmd_commit_disk_write returns: the write position is the next one, the block is empty again
-- and takes fragments, and in the table each element whose offset and size are those of an entry
-- of the block with its key is no longer marked as in memory, and nothing else of the vectors is
-- changed.
pub fsmd_commit_disk_write-IsSettled :
    (data_offs end_data_offs disk_offset : ℕ) (md : FsMetadata) (awb : AggWriteBlock)
    → IsKept md.table.fs_nodes
    → to_bytes volume_block_size disk_offset ≡ md.ops.write_pos
    → (md' : FsMetadata) × (awb' : AggWriteBlock) × (fsmd_commit_disk_write data_offs end_data_offs
          disk_offset md awb
        ≡ some (md', awb'))
      × (md'.ops ≡ (go_to_next_wr_pos data_offs end_data_offs md).ops)
      × (awb'.block_meta.entries ≡ [])
      × (awb'.buff_pos ≡ meta_blocks)
      × (awb'.pending_disk_write ≡ false)
      × ((key : ℕ)
          → IsSettled key awb.block_meta.entries
              (find key md.table.fs_nodes)
              (find key md'.table.fs_nodes))
unfolding fsmd_commit_disk_write end_disk_write release_entries
fsmd_commit_disk_write-IsSettled data_offs end_data_offs disk_offset md awb kept here =
    let es : List AggMetaEntry = awb.block_meta.entries in
    let (ns, q, same) = commit_loop-one_by_one (length es) es md (omega arith) in
    let at_pos : (to_bytes volume_block_size disk_offset == md.ops.write_pos) ≡ true =
      (==_iff _ _).1 here in
    let (ops, nodes) = next_wr_pos-with_nodes data_offs end_data_offs ns md in
    (
      go_to_next_wr_pos data_offs end_data_offs (with_nodes ns md),
      (end_disk_write awb).1,
      rw (q, at_pos) refl,
      ops,
      refl,
      refl,
      refl,
      λ key.
          subst (IsSettled key es (find key md.table.fs_nodes))
            (sym (ap (find key) nodes ∙ same key))
            (one_by_one_at-IsSettled key es md.table.fs_nodes kept),
    )
