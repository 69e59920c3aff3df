-- ===== src/FsOperations/Truncation.antt =====
-- fsmd_begin_write_truncate: an object that nobody reads is dropped, any other is left alone.
use cache_work.Prelude.{
  ℕ, ◌-◌, ◌<◌, ◌≡◌, ◌≢◌, ◌⊎◌, inl, inr, refl, ◌∙◌, sym, true, false, ltb, Bool-cases, if◌then◌else◌,
  Option, some, none, [], ◌∷◌, length-remove_slice, arith,
}
use cache_work.Range.{Range}
use cache_work.RangeVector.{RangeVector, single, heap, elems, size}
use cache_work.RangeVector.Update.{rem_range}
use cache_work.RangeVector.Sorted.{IsValid}
use cache_work.RangeVector.Removal.{rem_range-RemSpec}
use cache_work.FsTable.{FsTable, find}
use cache_work.FsTable.Nodes.{find-IsValid}
use cache_work.FsTable.Counters.{IsCounted, vec_of, nothing_on_heap}
use cache_work.FsTable.Removing.{IsRemover, RemOutcome, rem_entries-RemOutcome}
use cache_work.Transactions.{Transaction, make_transaction}
use cache_work.FsOperations.Writes.{
  WriteErr, object_in_use, any_readers, truncate_rem, truncated, fsmd_begin_write_truncate,
}
use cache_work.FsOperations.Evacuation.{bytes_bound}

-- What is left when all goes: a valid vector without elements.
abbrev gone : RangeVector → RangeVector
gone v = (rem_range (record { first = 0; last = size v }) v).0

some_gone : (v : RangeVector) → IsValid v → 0 < size v → IsValid (gone v) × (size (gone v) ≡ 0)
some_gone v valid h =
    let spec = rem_range-RemSpec (record { first = 0; last = size v }) h v (omega arith) valid in
    (
      spec.0,
      rw spec.1
          (omega (arith, length-remove_slice 0 (size v) (elems v) (omega arith) (omega arith))),
    )

all_gone : (v : RangeVector) → IsValid v → IsValid (gone v) × (size (gone v) ≡ 0)
unfolding rem_range
all_gone (single e) valid = some_gone (single e) valid (omega arith)
all_gone (heap alloc []) valid = (valid, refl)
all_gone (heap alloc (x ∷ [])) valid = some_gone (heap alloc (x ∷ [])) valid (omega arith)
all_gone (heap alloc (x ∷ (y ∷ zs))) valid =
    some_gone (heap alloc (x ∷ (y ∷ zs))) valid (omega arith)

truncate_rem-IsRemover : IsRemover truncate_rem
unfolding truncate_rem
truncate_rem-IsRemover = record {
  valid = λ v h. elim (Bool-cases (any_readers (elems v))) [
    | inl t ↦ rw t h
    | inr f ↦ rw f (all_gone v h).0
  ];
  fewer = λ v h. elim (Bool-cases (any_readers (elems v))) [
    | inl t ↦ rw t (omega arith)
    | inr f ↦ rw f (omega (arith, (all_gone v h).1))
  ];
  told = λ v h. elim (Bool-cases (any_readers (elems v))) [
    | inl t ↦ rw t (omega arith)
    | inr f ↦ rw f (omega (arith, (nothing_on_heap (gone v) (all_gone v h).1).1, bytes_bound v h))
  ];
  small = λ v h. elim (Bool-cases (any_readers (elems v))) [
    | inl t ↦ rw t (omega arith)
    | inr f ↦ rw f (omega arith)
  ];
}

-- What fsmd_begin_write_truncate answers: a reader keeps the object and refuses the write; without
-- readers the object is gone, and the write has its whole range.
pub record TruncateOutcome (key : ℕ) (rng : Range) (t : FsTable) (r : WriteErr ⊎ Transaction)
    (t' : FsTable) : Type 0 where
  pub counted : IsCounted t'
  pub others : (k : ℕ) → k ≢ key → find k t'.fs_nodes ≡ find k t.fs_nodes
  pub answer :
      ((any_readers (elems (vec_of (find key t.fs_nodes))) ≡ true)
        × (r ≡ inl object_in_use)
        × (find key t'.fs_nodes ≡ find key t.fs_nodes))
      ⊎ ((any_readers (elems (vec_of (find key t.fs_nodes))) ≡ false)
          × (r ≡ inr (make_transaction key rng))
          × (find key t'.fs_nodes ≡ none))

kept_vector : (v : RangeVector) → any_readers (elems v) ≡ true → (truncate_rem v).0 ≡ v
unfolding truncate_rem
kept_vector v h = rw h refl

dropped_vector : (v : RangeVector) → any_readers (elems v) ≡ false → (truncate_rem v).0 ≡ gone v
unfolding truncate_rem
dropped_vector v h = rw h refl

module _ (key : ℕ) (rng : Range) (t : FsTable) (c : IsCounted t) where
  abbrev result : Option ℕ → WriteErr ⊎ Transaction
  result r = if truncated r then inr (make_transaction key rng) else inl object_in_use

  refused : (n : ℕ) (r : Option ℕ) → r ≡ some (n - n) → result r ≡ inl object_in_use
  refused n r q = let z : n - n ≡ 0 = omega arith in rw (q, z) refl

  granted :
      (n k : ℕ) (r : Option ℕ)
      → r ≡ some (n - k)
      → k ≡ 0
      → 0 < n
      → result r ≡ inr (make_transaction key rng)
  granted n k r q z h = let t : ltb 0 (n - k) ≡ true = ground arith in rw (q, t) refl

  outcome :
      (r : Option ℕ) (t' : FsTable)
      → RemOutcome key truncate_rem t r t'
      → TruncateOutcome key rng t (result r) t'
  outcome r t' o = record {
    counted = o.counted;
    others = o.others;
    answer = elim o.answer [
      | inl (n, p, s) ↦ inr (rw n no_readers, rw p refl, rw s n)
      | inr (v, f, p, d) ↦
          let some_elems = (find-IsValid key t.fs_nodes v c.kept f).1 in
          let empty = (all_gone v (find-IsValid key t.fs_nodes v c.kept f).0).1 in
          elim (Bool-cases (any_readers (elems v))) [
            | inl u ↦
                let same = kept_vector v u in
                let p' : r ≡ some (size v - size v) = rw same at p in
                let d' : ((size v ≡ 0) × (find key t'.fs_nodes ≡ none))
                    ⊎ ((0 < size v) × (find key t'.fs_nodes ≡ some v)) =
                  rw same at d in
                inl (
                  rw f u,
                  refused (size v) r p',
                  elim d' [ inl (z, q) ↦ absurd (omega arith) | inr (z, q) ↦ q ∙ sym f ],
                )
            | inr u ↦
                let left = dropped_vector v u in
                let p' : r ≡ some (size v - size (gone v)) = rw left at p in
                let d' : ((size (gone v) ≡ 0) × (find key t'.fs_nodes ≡ none))
                    ⊎ ((0 < size (gone v)) × (find key t'.fs_nodes ≡ some (gone v))) =
                  rw left at d in
                inr (
                  rw f u,
                  granted (size v) (size (gone v)) r p' empty some_elems,
                  elim d' [ inl (z, q) ↦ q | inr (z, q) ↦ absurd (omega arith) ],
                )
          ]
    ];
  }
    where
      no_readers : any_readers [] ≡ false
      no_readers = unfold any_readers in refl

  -- On a table with true counters, fsmd_begin_write_truncate does not abort, and the counters
  -- are true after it. Where an element of the object has readers, it refuses and leaves the
  -- object as it was; else the object is gone, and the transaction has the whole range. Other
  -- objects stay.
  pub fsmd_begin_write_truncate-TruncateOutcome :
      (r : WriteErr ⊎ Transaction) × (t' : FsTable) × (fsmd_begin_write_truncate key rng t
        ≡ some (r, t'))
      × TruncateOutcome key rng t r t'
  unfolding fsmd_begin_write_truncate
  fsmd_begin_write_truncate-TruncateOutcome =
      let (r, t', q, o) = rem_entries-RemOutcome key truncate_rem truncate_rem-IsRemover t c in
      rw q (_, t', refl, outcome r t' o)
