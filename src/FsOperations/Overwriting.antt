-- ===== src/FsOperations/Overwriting.antt =====
-- fsmd_add_new_fragment on the table: an element that has readers is not overwritten.
use cache_work.Prelude.{
  ℕ, ◌+◌, ◌-◌, ◌≤◌, ◌<◌, ◌≡◌, inl, inr, ap, sym, false, ◌==◌, ltb, ==_iff, Bool-cases, some, none,
  Option-cases, >>=-eq-some, length, arith,
}
use cache_work.Units.{max_obj_size, u64}
use cache_work.Range.{Range}
use cache_work.RangeElem.{RangeElem, rng_offset, rng_size, rng_end_offset}
use cache_work.RangeElem.Fields.{IsSound, rng_end_offset-eq}
use cache_work.RangeVector.{RangeVector, elems, size, IterRange, members, find_in_range}
use cache_work.RangeVector.Update.{add_range, rem_range}
use cache_work.RangeVector.Sorted.{IsValid, elems-IsSorted}
use cache_work.RangeVector.InRange.{Overlapping, find_in_range-Overlapping}
use cache_work.FsTable.{
  FsTable, AddRes, Added, find, put, data_size, calc_inc_cnt_ranges, calc_dec_cnt_ranges, add_node,
  add_free, add_over, add_to, add_entry, on_inc_entries, on_dec_entries_of, on_dec_entries,
}
use cache_work.FsTable.Nodes.{find-IsValid, find-put_same, find-put_other, find-insert_other}
use cache_work.FsTable.Counters.{IsCounted}
use cache_work.FsTable.Adding.{to_range-some}
use cache_work.FsOperations.Writes.{any_readers, overwrite_unread}
use cache_work.FsOperations.Kept.{Keeps, Keeps-refl, Keeps-trans, rem_range-Keeps}
use cache_work.FsOperations.Adding.{add_range-Keeps, slice_unread}
use cache_work.FsOperations.Evacuation.{KeepsAll}

some_table :
    {r r' : AddRes} {t t' : FsTable} → ◌≡◌ {A = Added} (some (r, t)) (some (r', t')) → t ≡ t'
some_table q = cc

same-KeepsAll : (t t' : FsTable) → t ≡ t' → KeepsAll t t'
same-KeepsAll t t' q = rw (sym q) (λ k. Keeps-refl _)

module _ (key : ℕ) (e : RangeElem) (t : FsTable) where
  put-KeepsAll :
      (v w : RangeVector) (t' : FsTable)
      → find key t.fs_nodes ≡ some v
      → Keeps (elems v) (elems w)
      → t'.fs_nodes ≡ put key w t.fs_nodes
      → KeepsAll t t'
  put-KeepsAll v w t' f h q k = elim (Bool-cases (k == key)) [
    | inl s ↦ rw ((==_iff k key).0 s, q, f, find-put_same key w v t.fs_nodes f) h
    | inr s ↦
        rw (q, find-put_other key k w t.fs_nodes (ground (arith, (==_iff k key).1))) (Keeps-refl _)
  ]

  add_node-KeepsAll :
      (r : AddRes) (t' : FsTable)
      → find key t.fs_nodes ≡ none
      → add_node key e t ≡ some (r, t')
      → KeepsAll t t'
  unfolding add_node on_inc_entries
  add_node-KeepsAll r t' f h =
      elim (Bool-cases
        (ltb t.max_allowed_data_size (data_size (length t.fs_nodes + 1) t.cnt_ranges))) [
          | inl u ↦ same-KeepsAll t t' (some_table (rw u at h))
          | inr u ↦
              let q = some_table (rw u at h) in
              rw (sym q) (λ k. elim (Bool-cases (k == key)) [
                | inl s ↦ rw ((==_iff k key).0 s, f) (λ i b r. absurd (omega arith))
                | inr s ↦
                    rw (find-insert_other key k _ t.fs_nodes (ground (arith, (==_iff k key).1)))
                      (Keeps-refl _)
              ])
        ]

  module _ (v : RangeVector) (f : find key t.fs_nodes ≡ some v) where
    add_free-KeepsAll :
        (r : AddRes) (t' : FsTable) → add_free key e v t ≡ some (r, t') → KeepsAll t t'
    unfolding add_free on_inc_entries
    add_free-KeepsAll r t' h =
        elim (Bool-cases (
          ltb t.max_allowed_data_size
            (data_size (length t.fs_nodes) (u64 (t.cnt_ranges + calc_inc_cnt_ranges (size v)))))) [
              | inl u ↦ same-KeepsAll t t' (some_table (rw u at h))
              | inr u ↦
                  let (a, p, g) = >>=-eq-some (add_range e v) _ (rw u at h) in
                  let keeps = add_range-Keeps e v p in
                  elim (Bool-cases a.inserted) [
                    | inl w ↦
                        let q = some_table (rw w at g) in
                        put-KeepsAll v a.vec t' f keeps (ap (λ z. z.fs_nodes) (sym q))
                    | inr w ↦
                        let q = some_table (rw w at g) in
                        put-KeepsAll v a.vec t' f keeps (ap (λ z. z.fs_nodes) (sym q))
                  ]
            ]

    add_over-KeepsAll :
        (rngs : IterRange) (r : AddRes) (t' : FsTable)
        → IsValid v
        → rngs.first < rngs.last
        → rngs.last ≤ size v
        → any_readers (members (elems v) rngs) ≡ false
        → add_over key e rngs v t ≡ some (r, t')
        → KeepsAll t t'
    unfolding add_over on_inc_entries on_dec_entries_of on_dec_entries
    add_over-KeepsAll rngs r t' valid lt le u h =
        let left : RangeVector = (rem_range rngs v).0 in
        let removed =
          rem_range-Keeps rngs v valid lt le
            (slice_unread rngs.first rngs.last (elems v) (omega arith) le u) in
        elim (Bool-cases (ltb t.cnt_ranges (calc_dec_cnt_ranges (size v) (size v - size left)))) [
          | inl w ↦ let p : ◌≡◌ {A = Added} none (some (r, t')) = rw w at h in absurd cc
          | inr w ↦
              elim (Bool-cases (
                ltb (calc_dec_cnt_ranges (size v) (size v - size left))
                  (calc_inc_cnt_ranges (size left)))) [
                    | inl x ↦
                        let p : ◌≡◌ {A = Added} none (some (r, t')) = rw (w, x) at h in absurd cc
                    | inr x ↦
                        let (a, p, g) = >>=-eq-some (add_range e left) _ (rw (w, x) at h) in
                        let q = some_table g in
                        put-KeepsAll v a.vec t' f
                          (Keeps-trans (elems v) (elems left) _ removed (add_range-Keeps e left p))
                          (ap (λ z. z.fs_nodes) (sym q))
                  ]
        ]

  -- For a sound element that ends inside the largest object.
  module _ (sound : IsSound e) (fits : rng_end_offset e ≤ max_obj_size) (c : IsCounted t) where
    add_found-KeepsAll :
        (v : RangeVector) (r : AddRes) (t' : FsTable)
        → find key t.fs_nodes ≡ some v
        → add_to key e overwrite_unread t (some v) ≡ some (r, t')
        → KeepsAll t t'
    unfolding add_to overwrite_unread
    add_found-KeepsAll v r t' f h =
        let (valid, filled) = find-IsValid key t.fs_nodes v c.kept f in
        let rng : Range = record { beg = rng_offset e; len = rng_size e } in
        let rngs : IterRange = find_in_range (elems v) rng in
        let over : Overlapping (elems v) (rng_offset e) (rng_end_offset e) rngs =
          rw (rng_end_offset-eq e sound) (
            find_in_range-Overlapping (elems v) (elems-IsSorted v valid) rng
              (omega (arith, fits, rng_end_offset-eq e sound)) sound.nonempty) in
        let n : (size v == 0) ≡ false = ground arith in
        let h1 = rw (to_range-some key e sound fits t c, n) at h in
        elim (Bool-cases (rngs.first == rngs.last)) [
          | inl s ↦ add_free-KeepsAll v f r t' (rw s at h1)
          | inr s ↦ elim (Bool-cases (any_readers (members (elems v) rngs))) [
            | inl u ↦ same-KeepsAll t t' (some_table (rw (s, u) at h1))
            | inr u ↦
                let lt : rngs.first < rngs.last = ground (arith, over.0) in
                add_over-KeepsAll v f rngs r t' valid lt over.1 u (rw (s, u) at h1)
          ]
        ]

    -- On a table with true counters, for a sound element that ends inside the largest object,
    -- add_entry with the condition of fsmd_add_new_fragment loses no element that has readers.
    pub add_entry-KeepsAll :
        (r : AddRes) (t' : FsTable)
        → add_entry key e overwrite_unread t ≡ some (r, t')
        → KeepsAll t t'
    unfolding add_entry
    add_entry-KeepsAll r t' h = elim (Option-cases (find key t.fs_nodes)) [
      | inl n ↦ add_node-KeepsAll r t' n (unfold add_to in rw n at h)
      | inr (v, f) ↦ add_found-KeepsAll v r t' f (rw f at h)
    ]
