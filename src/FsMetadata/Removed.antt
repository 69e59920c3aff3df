-- ===== src/FsMetadata/Removed.antt =====
-- rem_table_entry: which fragment it removes, and what it answers.
use cache_work.Prelude.{
  ℕ, ◌+◌, ◌-◌, ◌<◌, ◌≡◌, ◌≢◌, ◌⊎◌, inl, inr, refl, sym, ap, ◌∙◌, subst, Bool, true, false, ◌==◌,
  Bool-cases, Option, none, some, arith, remove_slice,
}
use cache_work.RangeElem.{RangeElem, rng_offset, rng_size}
use cache_work.RangeVector.{RangeVector, elems, at, size, lower_bound, find_exact_elem}
use cache_work.RangeVector.Update.{rem_range}
use cache_work.RangeVector.Sorted.{IsValid, elems-IsSorted}
use cache_work.FsTable.{FsTable, find}
use cache_work.FsTable.Nodes.{find-IsValid}
use cache_work.FsTable.Counters.{IsCounted}
use cache_work.FsTable.Removing.{RemOutcome, rem_entries-RemOutcome}
use cache_work.FsMetadata.{FsMetadata, rem_exact, removed_some, rem_table_entries, rem_table_entry}
use cache_work.FsMetadata.Table.{find_exact_elem-le, taken, taken_size, rem_exact-IsRemover}
use cache_work.FsOperations.Unread.{lower_bound-at_elem}

-- The element at position `i` is the fragment: it has its offset and its size.
abbrev pub IsFragAt : RangeElem → RangeVector → ℕ → Type 0
IsFragAt e v i =
    (i < size v)
    × (rng_offset (at (elems v) i) ≡ rng_offset e)
    × (rng_size (at (elems v) i) ≡ rng_size e)

find_exact_elem-IsFragAt :
    (e : RangeElem) (v : RangeVector)
    → find_exact_elem (elems v) e < size v
    → IsFragAt e v (find_exact_elem (elems v) e)
unfolding find_exact_elem
find_exact_elem-IsFragAt e v h = (h, ground arith, ground arith)

IsFragAt-found :
    (e : RangeElem) (v : RangeVector) (i : ℕ)
    → IsValid v
    → IsFragAt e v i
    → find_exact_elem (elems v) e ≡ i
unfolding find_exact_elem
IsFragAt-found e v i valid (b, o, n) =
    let q : lower_bound (rng_offset e) (elems v) ≡ i =
      ap (λ z. lower_bound z (elems v)) (sym o)
      ∙ lower_bound-at_elem (elems v) i (elems-IsSorted v valid) b in
    rw q (ground arith)

-- What the vector of the key was and is, by the answer.
abbrev pub RemAnswer : RangeElem → Bool → Option RangeVector → Option RangeVector → Type 0
RemAnswer e b before after =
    ((b ≡ false)
      × (after ≡ before)
      × ((v : RangeVector) → before ≡ some v → (i : ℕ) → ¬ IsFragAt e v i))
    ⊎ ((b ≡ true)
        × (v : RangeVector) × (i : ℕ) × (before ≡ some v)
        × IsFragAt e v i
        × (((size v ≡ 1) × (after ≡ none))
            ⊎ ((w : RangeVector) × (after ≡ some w)
                × (elems w ≡ remove_slice i (i + 1) (elems v)))))

module _ (key : ℕ) (e : RangeElem) (m : FsMetadata) (c : IsCounted m.table) where
  last_one : (v x w : RangeVector) → x ≡ w → size x ≡ 0 → size w + 1 ≡ size v → size v ≡ 1
  last_one v x w same z less = omega (arith, ap size same, z, less)

  unchanged :
      (v w : RangeVector) (t : FsTable)
      → w ≡ v
      → 0 < size v
      → ((size w ≡ 0) × (find key t.fs_nodes ≡ none))
        ⊎ ((0 < size w) × (find key t.fs_nodes ≡ some w))
      → (removed_some (some (size v - size w)) ≡ false) × (find key t.fs_nodes ≡ some v)
  unchanged v w t same h (inl (z, gone)) = absurd (omega (arith, ap size same))
  unchanged v w t same h (inr (z, kept)) =
      let q : size w ≡ size v = ap size same in (ground (arith), kept ∙ ap some same)

  answer_of :
      (r : Option ℕ) (t : FsTable)
      → RemOutcome key (rem_exact e) m.table r t
      → RemAnswer e (removed_some r) (find key m.table.fs_nodes) (find key t.fs_nodes)
  unfolding rem_exact
  answer_of r t o = elim o.answer [
    | inl (n, q, s) ↦ inl (rw q refl, rw s refl, λ v f i a. absurd (cc (n, f)))
    | inr (v, f, q, out) ↦
        let valid = find-IsValid key m.table.fs_nodes v c.kept f in
        elim (Bool-cases (find_exact_elem (elems v) e == size v)) [
          | inl none_there ↦
              let same : (rem_exact e v).0 ≡ v = rw none_there refl in
              let (d, kept) = unchanged v (rem_exact e v).0 t same valid.1 out in
              inl (
                rw q d,
                kept ∙ sym f,
                λ u g i a.
                    let p : u ≡ v = cc (f, g) in
                    let here : IsFragAt e v i = subst (λ z. IsFragAt e z i) p a in
                    let at_i = IsFragAt-found e v i valid.0 here in ground (arith, here.0),
              )
          | inr there ↦
              let found : find_exact_elem (elems v) e < size v =
                ground (arith, find_exact_elem-le (elems v) e) in
              let spot : ℕ = find_exact_elem (elems v) e in
              let w : RangeVector = (rem_range (record { first = spot; last = spot + 1 }) v).0 in
              let same : (rem_exact e v).0 ≡ w = rw there refl in
              let less : size w + 1 ≡ size v = taken_size e v valid.0 found in
              let one : size v - size (rem_exact e v).0 ≡ 1 = rw same (omega arith) in
              inr (
                rw (q, one) refl,
                v,
                spot,
                f,
                find_exact_elem-IsFragAt e v found,
                elim out [
                  | inl (z, gone) ↦ inl (last_one v (rem_exact e v).0 w same z less, gone)
                  | inr (z, kept) ↦ inr (w, kept ∙ ap some same, (taken e v valid.0 found).1)
                ],
              )
        ]
  ]

  -- On metadata whose table has true counters, rem_table_entry does not abort, leaves a table
  -- with true counters and dirty metadata, and keeps the vectors of other keys. It answers false
  -- where the key has no element with the offset and the size, and then the key is as before;
  -- otherwise it answers true, and exactly this element is gone, and with the last one the key.
  pub rem_table_entry-RemAnswer :
      (b : Bool) × (m' : FsMetadata) × (rem_table_entry key e m ≡ some (b, m'))
      × IsCounted m'.table
      × (m'.is_dirty ≡ true)
      × ((k : ℕ) → k ≢ key → find k m'.table.fs_nodes ≡ find k m.table.fs_nodes)
      × RemAnswer e b (find key m.table.fs_nodes) (find key m'.table.fs_nodes)
  unfolding rem_table_entry rem_table_entries
  rem_table_entry-RemAnswer =
      let (r, t, q, o) =
        rem_entries-RemOutcome key (rem_exact e) (rem_exact-IsRemover e) m.table c in
      rw q (_, _, refl, o.counted, refl, o.others, answer_of r t o)
