-- ===== src/FsOperations/NextElem.antt =====
-- fsmd_find_next_range_elem after fsmd_begin_read: what a reader finds while it reads.
use cache_work.Prelude.{
  ℕ, zero, suc, ◌+◌, ◌≤◌, ◌<◌, ◌≡◌, inl, inr, refl, sym, subst, ap, true, false, ◌==◌,
  if◌then◌else◌, ◌⊎◌, Bool-cases, Option, some, Option-cases, List, [], ◌∷◌, length, arith,
}
use cache_work.Units.{u64, max_obj_size, in_range, range_in_range}
use cache_work.Range.{Range, is_valid_frag, frag_range}
use cache_work.RangeElem.{RangeElem, has_readers, valid_range_elem}
use cache_work.RangeVector.{
  RangeVector, IterRange, no_elems, elems, size, at, is_none, find_full_range,
}
use cache_work.RangeVector.Sorted.{IsSorted, Holds, elems-IsSorted}
use cache_work.RangeVector.FullRange.{find_full_range-FullResult}
use cache_work.RangeVector.ExactRange.{same_at}
use cache_work.FsTable.{FsTable, find, put}
use cache_work.FsTable.Nodes.{IsKept, find-IsValid, find-put_same}
use cache_work.Transactions.{Transaction, make_transaction, valid, invalidate, curr_offset}
use cache_work.FsOperations.{
  BeginRes, not_found, cnt_of, with_elems, read_at, transaction_of, fsmd_begin_read,
}
use cache_work.FsOperations.Marks.{
  raise, length-raise, find_full_range-raise, offset-raise, end-raise,
}
use cache_work.FsOperations.Reading.{
  BeginAnswer, absent, full, marked, begin_read_elems-BeginAnswer,
}
use cache_work.FsOperations.Restored.{elems-with_elems}
use cache_work.FsOperations.Commit.{
  FindErr, corrupted_object_meta, next_elem, next_elem_at, checked_elem, fsmd_find_next_range_elem,
}

raise-has_readers :
    (s c : ℕ) (xs : List RangeElem) (i : ℕ)
    → s ≤ i
    → i < s + c
    → i < length xs
    → has_readers (at (raise s c xs) i) ≡ true
unfolding raise has_readers
raise-has_readers s c [] i l h b = absurd (omega arith)
raise-has_readers (suc s) c (x ∷ xs) zero l h b = absurd (omega arith)
raise-has_readers (suc s) c (x ∷ xs) (suc i) l h b =
    raise-has_readers s c xs i (omega arith) (omega arith) (omega arith)
raise-has_readers zero zero (x ∷ xs) i l h b = absurd (omega arith)
raise-has_readers zero (suc c) (x ∷ xs) zero l h b = ground arith
raise-has_readers zero (suc c) (x ∷ xs) (suc i) l h b =
    raise-has_readers zero c xs i (omega arith) (omega arith) (omega arith)

abbrev byte_at : ℕ → Range
byte_at p = record { beg = p; len = 1 }

frag_range-byte_at : (p : ℕ) → p < max_obj_size → frag_range p 1 ≡ some (byte_at p)
unfolding frag_range is_valid_frag in_range range_in_range
frag_range-byte_at p h = let v : is_valid_frag p 1 ≡ true = ground arith in rw v refl

-- What is at the byte `p`: an element of the vector that holds it and has readers, and the search
-- for the byte finds this one.
record IsMarkedAt (p : ℕ) (ys : List RangeElem) : Type 0 where
  pub pos : ℕ
  pub inside : pos < length ys
  pub holds : Holds (at ys pos) p
  pub read : has_readers (at ys pos) ≡ true
  pub found : next_elem (byte_at p) ys ≡ inr (at ys pos)

module _ (rng : Range) (some_bytes : 0 < rng.len) (fits : rng.beg + rng.len ≤ max_obj_size) where
  marked_at :
      (xs : List RangeElem)
      → IsSorted xs
      → is_none (find_full_range xs rng) ≡ false
      → (n : ℕ) → n < rng.len
      → IsMarkedAt
          (rng.beg + n)
          (raise (find_full_range xs rng).first (cnt_of (find_full_range xs rng)) xs)
  unfolding next_elem
  marked_at xs s h n b =
      let r : IterRange = find_full_range xs rng in
      let p : ℕ = rng.beg + n in
      let g : IterRange = find_full_range xs (byte_at p) in
      let ys : List RangeElem = raise r.first (cnt_of r) xs in
      elim (find_full_range-FullResult xs s rng (omega arith) some_bytes) [
        | inl (e, gap) ↦ absurd (empty_row e)
        | inr (lt, w, lo, mid, hi, reach, fills) ↦
            let (i, from, below, l, u) = fills p (omega arith) (omega arith) in
            elim (find_full_range-FullResult xs s (byte_at p) (omega arith) (omega arith)) [
              | inl (e, (q, a, z, free)) ↦
                  absurd (free (i, omega arith, omega (arith, l), omega (arith, u)))
              | inr (lt2, w2, lo2, mid2, hi2, reach2, fills2) ↦
                  let k : g.first ≡ i =
                    same_at xs s rng (omega arith) some_bytes g.first i p (omega arith)
                      (omega arith) (lo2, mid2) (l, u) in
                  let some_row : (g.first == g.last) ≡ false = ground arith in
                  let len : length ys ≡ length xs = length-raise r.first (cnt_of r) xs in
                  record {
                    pos = g.first;
                    inside = omega arith;
                    holds = (
                      rw (offset-raise r.first (cnt_of r) xs g.first) lo2,
                      rw (end-raise r.first (cnt_of r) xs g.first) mid2,
                    );
                    read =
                        raise-has_readers r.first (cnt_of r) xs g.first (omega arith) (omega arith)
                          (omega arith);
                    found =
                        rw (find_full_range-raise r.first (cnt_of r) xs (byte_at p), some_row) refl;
                  }
            ]
      ]
    where
      empty_row : find_full_range xs rng ≡ no_elems xs → ⊥
      empty_row e = ground (arith, ap (λ z. z.first) e, ap (λ z. z.last) e)

-- What fsmd_find_next_range_elem gives for the byte `p` of a key in a table: an element of the
-- vector of the key that holds the byte and has readers, unless the disk area does not hold it.
abbrev pub FindsAt : (doffs dsize key p : ℕ) → FsTable → Option (FindErr ⊎ RangeElem) → Type 0
FindsAt doffs dsize key p t r =
    (v : RangeVector) × (i : ℕ) × (find key t.fs_nodes ≡ some v)
    × (i < size v)
    × Holds (at (elems v) i) p
    × (has_readers (at (elems v) i) ≡ true)
    × (r
        ≡ some (
            if valid_range_elem (at (elems v) i) doffs dsize
            then inr (at (elems v) i)
            else inl corrupted_object_meta))

checked_elem-read :
    (doffs dsize : ℕ) (e : RangeElem)
    → has_readers e ≡ true
    → checked_elem doffs dsize (inr e)
      ≡ some (if valid_range_elem e doffs dsize then inr e else inl corrupted_object_meta)
unfolding checked_elem
checked_elem-read doffs dsize e h = elim (Bool-cases (valid_range_elem e doffs dsize)) [
  | inl t ↦ rw (t, h) refl
  | inr f ↦ rw f refl
]

module _ (doffs dsize key : ℕ) (rng : Range) (t : FsTable) (kept : IsKept t.fs_nodes)
    (some_bytes : 0 < rng.len) (fits : rng.beg + rng.len ≤ max_obj_size) where
  abbrev Serves : Transaction → FsTable → Type 0
  Serves tr t' =
      (n : ℕ)
      → n < rng.len
      → FindsAt doffs dsize key (rng.beg + n) t'
          (fsmd_find_next_range_elem doffs dsize (record tr { done = n }) t')

  elems-Serves :
      (v : RangeVector) (ys : List RangeElem)
      → find key t.fs_nodes ≡ some v
      → length ys ≡ size v
      → ((n : ℕ) → n < rng.len → IsMarkedAt (rng.beg + n) ys)
      → Serves
          (make_transaction key rng)
          (record t { fs_nodes = put key (with_elems ys v) t.fs_nodes })
  unfolding fsmd_find_next_range_elem next_elem_at make_transaction curr_offset
  elems-Serves v ys f len marks n b =
      let w : RangeVector = with_elems ys v in
      let m : IsMarkedAt (rng.beg + n) ys = marks n b in
      let q : elems w ≡ ys = elems-with_elems v ys len in
      let there : find key (put key w t.fs_nodes) ≡ some w = find-put_same key w v t.fs_nodes f in
      let small : u64 (rng.beg + n) ≡ rng.beg + n = omega arith in
      (
        w,
        m.pos,
        there,
        rw q m.inside,
        rw q m.holds,
        rw q m.read,
        rw (there, small, frag_range-byte_at (rng.beg + n) (omega arith), q, m.found)
            (checked_elem-read doffs dsize (at ys m.pos) m.read),
      )

  -- The answers of begin_read that give a valid transaction.
  answer-Serves :
      (v : RangeVector)
      → find key t.fs_nodes ≡ some v
      → (b : BeginRes) (ys : List RangeElem) → BeginAnswer rng (elems v) b ys
      → valid (transaction_of key rng b) ≡ true
      → Serves
          (transaction_of key rng b)
          (record t { fs_nodes = put key (with_elems ys v) t.fs_nodes })
  unfolding transaction_of valid make_transaction invalidate
  answer-Serves v f _ _ (absent h) e = absurd (ground arith)
  answer-Serves v f _ _ full e = absurd (ground arith)
  answer-Serves v f _ _ (marked h) e =
      let s = elems-IsSorted v (find-IsValid key t.fs_nodes v kept f).0 in
      elems-Serves v _ f (length-raise _ _ (elems v)) (marked_at rng some_bytes fits (elems v) s h)

  no_valid : valid (transaction_of key rng not_found) ≡ true → ⊥
  unfolding transaction_of valid make_transaction invalidate
  no_valid e = absurd (ground arith)

  -- Where the vectors of the table are valid and fsmd_begin_read gave a valid transaction for a
  -- non-empty range inside the largest object, on the table after it and at each byte of the
  -- range fsmd_find_next_range_elem does not abort: it finds an element of the vector of the key
  -- that holds this byte and has readers, and answers it, or that its metadata is corrupted
  -- where it is not a valid element of the disk area.
  pub fsmd_begin_read-fsmd_find_next_range_elem :
      (u : Transaction) (t' : FsTable)
      → fsmd_begin_read key rng t ≡ some (u, t')
      → valid u ≡ true
      → (n : ℕ) → n < rng.len
      → FindsAt doffs dsize key
          (rng.beg + n)
          t'
          (fsmd_find_next_range_elem doffs dsize (record u { done = n }) t')
  unfolding fsmd_begin_read read_at
  fsmd_begin_read-fsmd_find_next_range_elem u t' e h = elim (Option-cases (find key t.fs_nodes)) [
    | inl n ↦
        let q : some (transaction_of key rng not_found, t) ≡ some (u, t') = rw n at e in
        let z : transaction_of key rng not_found ≡ u = cc (q) in
        absurd (no_valid (subst (λ o. valid o ≡ true) (sym z) h))
    | inr (v, f) ↦
        let (b, ys, p, a) = begin_read_elems-BeginAnswer rng (elems v) in
        let q : some (
          transaction_of key rng b,
          record t { fs_nodes = put key (with_elems ys v) t.fs_nodes },
        )
            ≡ some (u, t') =
          rw (f, p) at e in
        let begun : Transaction × FsTable = (
          transaction_of key rng b,
          record t { fs_nodes = put key (with_elems ys v) t.fs_nodes },
        ) in
        let given : Transaction × FsTable = (u, t') in
        let z : begun ≡ given = cc (q) in
        subst (λ o. Serves o.0 o.1) z
          (answer-Serves v f b ys a (subst (λ o. valid o.0 ≡ true) (sym z) h))
  ]
