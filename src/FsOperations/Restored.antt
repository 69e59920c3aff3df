-- ===== src/FsOperations/Restored.antt =====
-- fsmd_begin_read and fsmd_end_read on the table of a volume.
use cache_work.Prelude.{
  ℕ, ◌≡◌, inl, inr, refl, true, false, ◌==◌, Bool-cases, some, Option-cases, List, [], ◌∷◌, length,
  arith,
}
use cache_work.Range.{Range}
use cache_work.RangeElem.{RangeElem}
use cache_work.RangeVector.{RangeVector, single, heap, elems, size, is_none, find_full_range}
use cache_work.FsTable.{FsTable, Node, find, put}
use cache_work.FsTable.Nodes.{find-put_same, put-same}
use cache_work.Transactions.{Transaction, make_transaction, valid, invalidate}
use cache_work.FsOperations.{
  BeginRes, not_found, limit_reached, with_elems, read_at, transaction_of, fsmd_begin_read,
  fsmd_end_read,
}
use cache_work.FsOperations.Marks.{length-raise}
use cache_work.FsOperations.Reading.{
  BeginAnswer, absent, full, marked, begin_read_elems-BeginAnswer, raises, here,
}
use cache_work.FsOperations.Readers.{end_read_elems-raises}

pub elems-with_elems :
    (v : RangeVector) (ys : List RangeElem) → length ys ≡ size v → elems (with_elems ys v) ≡ ys
unfolding with_elems
elems-with_elems (single e) [] h = absurd (omega arith)
elems-with_elems (single e) (y ∷ []) h = refl
elems-with_elems (single e) (y ∷ (z ∷ ys)) h = absurd (omega arith)
elems-with_elems (heap alloc xs) ys h = refl

pub with_elems_same : (v : RangeVector) → with_elems (elems v) v ≡ v
unfolding with_elems
with_elems_same (single e) = refl
with_elems_same (heap alloc xs) = refl

pub with_elems_back :
    (v : RangeVector) (ys : List RangeElem) → with_elems (elems v) (with_elems ys v) ≡ v
unfolding with_elems
with_elems_back (single e) ys = refl
with_elems_back (heap alloc xs) ys = refl

put-put : (key : ℕ) (v w : RangeVector) (ns : List Node) → put key v (put key w ns) ≡ put key v ns
unfolding put
put-put key v w [] = refl
put-put key v w ((k, x) ∷ ns) = elim (Bool-cases (k == key)) [
  | inl t ↦ rw (t, t) refl
  | inr f ↦ rw (f, f, put-put key v w ns) refl
]

-- What begin_read leaves: a table as it was and no transaction, or one that the end of the
-- transaction gives back.
pub data BeginOutcome (key : ℕ) (rng : Range) (t : FsTable) : Transaction → FsTable → Type 0 where
  no_read : (tr : Transaction) → valid tr ≡ false → BeginOutcome key rng t tr t
  reading :
      (tr : Transaction) (t' : FsTable)
      → valid tr ≡ true
      → tr.fs_node_key ≡ key
      → tr.rng ≡ rng
      → fsmd_end_read tr t' ≡ some ((true, invalidate tr), t)
      → BeginOutcome key rng t tr t'

module _ (key : ℕ) (rng : Range) (t : FsTable) where
  abbrev changed : RangeVector → List RangeElem → FsTable
  changed v ys = record t { fs_nodes = put key (with_elems ys v) t.fs_nodes }

  unchanged : (v : RangeVector) → find key t.fs_nodes ≡ some v → changed v (elems v) ≡ t
  unchanged v f = rw (with_elems_same v, put-same key v t.fs_nodes f) refl

  end_back :
      (v : RangeVector)
      → find key t.fs_nodes ≡ some v
      → is_none (find_full_range (elems v) rng) ≡ false
      → fsmd_end_read (make_transaction key rng) (changed v (raises (rng ∷ []) (elems v)))
        ≡ some ((true, invalidate (make_transaction key rng)), t)
  unfolding fsmd_end_read read_at make_transaction valid invalidate
  end_back v f h =
      let ys : List RangeElem = raises (rng ∷ []) (elems v) in
      let w : RangeVector = with_elems ys v in
      let len : length ys ≡ size v = length-raise _ _ (elems v) in
      rw
        (
          find-put_same key w v t.fs_nodes f,
          elems-with_elems v ys len,
          end_read_elems-raises {rngs = rng ∷ []} {rest = []} (elems v) h here,
          with_elems_back v ys,
          put-put key v w t.fs_nodes,
          put-same key v t.fs_nodes f,
        )
        refl

  no_transaction : valid (transaction_of key rng not_found) ≡ false
  unfolding transaction_of valid invalidate make_transaction
  no_transaction = refl

  limited : valid (transaction_of key rng limit_reached) ≡ false
  unfolding transaction_of valid invalidate make_transaction
  limited = refl

  outcome_of :
      (v : RangeVector)
      → find key t.fs_nodes ≡ some v
      → (b : BeginRes) (ys : List RangeElem) → BeginAnswer rng (elems v) b ys
      → BeginOutcome key rng t (transaction_of key rng b) (changed v ys)
  unfolding transaction_of valid make_transaction
  outcome_of v f _ _ (absent h) = rw (unchanged v f) (no_read _ no_transaction)
  outcome_of v f _ _ full = rw (unchanged v f) (no_read _ limited)
  outcome_of v f _ _ (marked h) = reading _ _ refl refl refl (end_back v f h)

  -- A call of fsmd_begin_read never aborts. Either it gives an invalid transaction and leaves
  -- the table as it was, or it gives a valid one for the key and the range, and fsmd_end_read of
  -- this one on the table after it finds the range and gives back the table before it.
  pub fsmd_begin_read-fsmd_end_read :
      (tr : Transaction) × (t' : FsTable) × (fsmd_begin_read key rng t ≡ some (tr, t'))
      × BeginOutcome key rng t tr t'
  unfolding fsmd_begin_read read_at
  fsmd_begin_read-fsmd_end_read = elim (Option-cases (find key t.fs_nodes)) [
    | inl n ↦ rw n (_, t, refl, no_read _ no_transaction)
    | inr (v, f) ↦
        let (b, ys, q, a) = begin_read_elems-BeginAnswer rng (elems v) in
        (_, changed v ys, rw (f, q) refl, outcome_of v f b ys a)
  ]
