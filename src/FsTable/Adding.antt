-- ===== src/FsTable/Adding.antt =====
-- add_entry: whatever it answers, the counters stay true, and the table holds what the answer says.
use native.Mathlib.Nat.{le_refl}
use cache_work.Prelude.{
  ℕ, ◌+◌, ◌-◌, ◌*◌, ◌≤◌, ◌<◌, ◌≡◌, ◌≢◌, ◌⊎◌, ◌↔◌, inl, inr, refl, true, false, ◌==◌, ltb, leb, Bool,
  Bool-cases, ==_iff, none, some, Option-cases, List, ◌∷◌, length, arith, length-slice,
  length-remove_slice,
}
use cache_work.Units.{u64, max_obj_size, in_range, range_in_range}
use cache_work.Range.{Range, frag_range, is_valid_frag}
use cache_work.RangeElem.{RangeElem, rng_offset, rng_size, rng_end_offset, to_range, set_mark}
use cache_work.RangeElem.Fields.{IsSound, rng_end_offset-eq}
use cache_work.RangeVector.{
  RangeVector, of_elem, elems, size, empty_data, max_ranges, at, IterRange, members, find_in_range,
}
use cache_work.RangeVector.Update.{AddResult, add_range, rem_range}
use cache_work.RangeVector.Sorted.{Holds, Covers, IsValid, elems-IsSorted}
use cache_work.RangeVector.InRange.{Overlapping, find_in_range-Overlapping}
use cache_work.RangeVector.Insertion.Adding.{add_range-AddSpec, set_mark_range, single-Covers}
use cache_work.RangeVector.Removal.{RemSpec, rem_range-RemSpec, Covers-remove_slice}
use cache_work.FsTable.{
  FsTable, AddRes, added, overwrote, skipped, limit_reached, node_bytes, elem_bytes, data_size,
  calc_inc_cnt_ranges, calc_dec_cnt_ranges, on_inc_entries, on_dec_entries, on_dec_entries_of,
  data_of, find, put, add_node, add_free, add_over, add_to, add_entry,
}
use cache_work.FsTable.Nodes.{
  total, find-IsValid, find-insert_same, find-insert_other, find-put_same, find-put_other, put-same,
  total-find,
}
use cache_work.FsTable.Data.{bytes, add_range-bytes, data_of-remove_slice}
use cache_work.FsTable.Counters.{
  on_heap, IsCounted, vec_of, inc_on_heap, inc_le_two, dec_on_heap, dec_ge_inc, IsValid-size,
  IsCounted-put,
}

-- Some element that shares no byte with `e` holds the byte at `p`.
abbrev pub CoversApart : List RangeElem → RangeElem → ℕ → Type 0
CoversApart xs e p =
    (i : ℕ) × (i < length xs)
    × ((rng_end_offset (at xs i) ≤ rng_offset e) ⊎ (rng_end_offset e ≤ rng_offset (at xs i)))
    × (rng_offset (at xs i) ≤ p)
    × (p < rng_end_offset (at xs i))

-- What each answer says of the vector of the key, before and after.
abbrev pub Answer : RangeElem → (t t' : FsTable) → (before after : RangeVector) → AddRes → Type 0
Answer e t t' before after added =
    ((p : ℕ) → Covers (elems after) p ↔ (Covers (elems before) p ⊎ Holds e p))
    × ((p : ℕ) → Holds e p → ¬ Covers (elems before) p)
Answer e t t' before after overwrote =
    ((p : ℕ) → Covers (elems after) p ↔ (CoversApart (elems before) e p ⊎ Holds e p))
    × ((p : ℕ) × Holds e p × Covers (elems before) p)
Answer e t t' before after skipped =
    (t' ≡ t) × ((size before ≡ max_ranges) ⊎ ((p : ℕ) × Holds e p × Covers (elems before) p))
Answer e t t' before after limit_reached =
    (t' ≡ t)
    × (t.max_allowed_data_size
        < length t.fs_nodes * node_bytes + t.cnt_ranges * elem_bytes + node_bytes)

-- The outcome of add_entry.
pub record AddOutcome (key : ℕ) (e : RangeElem) (t : FsTable) (r : AddRes) (t' : FsTable)
    : Type 0 where
  pub counted : IsCounted t'
  pub others : (k : ℕ) → k ≢ key → find k t'.fs_nodes ≡ find k t.fs_nodes
  pub answer : Answer e t t' (vec_of (find key t.fs_nodes)) (vec_of (find key t'.fs_nodes)) r

module _ (key : ℕ) (e : RangeElem) (sound : IsSound e) (fits : rng_end_offset e ≤ max_obj_size)
    (t : FsTable) (c : IsCounted t) where
  nonempty : rng_offset e < rng_end_offset e
  nonempty = rw (rng_end_offset-eq e sound) (omega (arith, sound.nonempty))

  pub to_range-some : to_range e ≡ some (record { beg = rng_offset e; len = rng_size e })
  unfolding to_range frag_range is_valid_frag in_range range_in_range
  to_range-some = ground (arith, rng_end_offset-eq e sound, sound.nonempty, sound.fits)

  unchanged :
      (r : AddRes)
      → Answer e t t (vec_of (find key t.fs_nodes)) (vec_of (find key t.fs_nodes)) r
      → AddOutcome key e t r t
  unchanged r a = record { counted = c; others = λ k n. refl; answer = a }

  new-Covers : (p : ℕ) → Covers (elems (of_elem e)) p ↔ (Covers (elems empty_data) p ⊎ Holds e p)
  unfolding of_elem
  new-Covers p = single-Covers e p

  new-IsCounted :
      find key t.fs_nodes ≡ none
      → length t.fs_nodes * node_bytes + node_bytes + t.cnt_ranges * elem_bytes
        ≤ t.max_allowed_data_size
      → IsCounted (on_inc_entries e (record t { fs_nodes = (key, of_elem e) ∷ t.fs_nodes }))
  unfolding of_elem total on_inc_entries on_heap data_of set_mark rng_size
  new-IsCounted f room = record {
    kept = (f, rw ((set_mark_range e).0, (set_mark_range e).1) nonempty, omega arith, c.kept);
    ranges = omega (arith, c.ranges);
    entries = omega (arith, c.entries);
    data_bytes = omega (arith, c.data_bytes);
    within = omega arith;
    limit = c.limit;
  }

  add_node-AddOutcome :
      find key t.fs_nodes ≡ none
      → (r : AddRes) × (t' : FsTable) × (add_node key e t ≡ some (r, t')) × AddOutcome key e t r t'
  unfolding add_node data_size on_inc_entries
  add_node-AddOutcome f =
      elim (Bool-cases
        (ltb t.max_allowed_data_size (data_size (length t.fs_nodes + 1) t.cnt_ranges))) [
          | inl over ↦ rw over (
            limit_reached,
            t,
            refl,
            unchanged limit_reached (refl, ground (arith, c.within, c.limit)),
          )
          | inr room ↦ rw room (
            added,
            _,
            refl,
            record {
              counted = new-IsCounted f (ground (arith, c.within, c.limit));
              others = λ k n. find-insert_other key k (of_elem e) t.fs_nodes n;
              answer =
                  rw (f, find-insert_same key (of_elem e) t.fs_nodes)
                    ((λ p. new-Covers p), (λ p h (i, b, l, u). absurd (omega arith)));
            },
          )
        ]

  module _ (v : RangeVector) (f : find key t.fs_nodes ≡ some v) where
    valid : IsValid v × (0 < size v)
    valid = find-IsValid key t.fs_nodes v c.kept f

    -- The outcome of a change of the vector in place.
    replaced :
        (r : AddRes) (w : RangeVector) (t' : FsTable)
        → t'.fs_nodes ≡ put key w t.fs_nodes
        → IsCounted t'
        → Answer e t t' v w r
        → AddOutcome key e t r t'
    replaced r w t' q counted a =
        let after : find key t'.fs_nodes ≡ some w = rw q (find-put_same key w v t.fs_nodes f) in
        record {
          counted = counted;
          others = λ k n. rw q (find-put_other key k w t.fs_nodes n);
          answer = rw (f, after) a;
        }

    free-IsCounted :
        (a : AddResult)
        → add_range e v ≡ some a
        → a.inserted ≡ true
        → IsValid a.vec
        → size a.vec ≡ size v + 1
        → length t.fs_nodes * node_bytes
            + (t.cnt_ranges + calc_inc_cnt_ranges (size v)) * elem_bytes
          ≤ t.max_allowed_data_size
        → IsCounted (
            on_inc_entries e (record t {
              cnt_ranges = u64 (t.cnt_ranges + calc_inc_cnt_ranges (size v));
              fs_nodes = put key a.vec t.fs_nodes;
            }))
    unfolding on_inc_entries
    free-IsCounted a q i w n room =
        let exact : u64 (t.cnt_ranges + calc_inc_cnt_ranges (size v))
            ≡ t.cnt_ranges + calc_inc_cnt_ranges (size v) =
          omega (arith, c.limit) in
        IsCounted-put key v a.vec t _ c f w (omega arith) refl refl
          (omega (arith, inc_on_heap v a.vec n)) (λ m h. omega (arith, c.entries))
          (λ m h. omega (arith, c.data_bytes, add_range-bytes e v q i)) (rw exact room)

    add_free-AddOutcome :
        ((p : ℕ) → Holds e p → ¬ Covers (elems v) p)
        → (r : AddRes) × (t' : FsTable) × (add_free key e v t ≡ some (r, t'))
          × AddOutcome key e t r t'
    unfolding add_free data_size on_inc_entries
    add_free-AddOutcome free =
        let (a, q, spec) = add_range-AddSpec e nonempty v valid.0 in
        elim (Bool-cases (
          ltb t.max_allowed_data_size
            (data_size (length t.fs_nodes) (u64 (t.cnt_ranges + calc_inc_cnt_ranges (size v)))))) [
              | inl over ↦ rw over (
                limit_reached,
                t,
                refl,
                unchanged limit_reached
                    (refl, ground (arith, c.within, c.limit, inc_le_two (size v))),
              )
              | inr room ↦
                  rw (room, q)
                    (elim spec [
                      | inl (i, w, n, covers, apart) ↦ rw i (
                        added,
                        _,
                        refl,
                        replaced added a.vec _ refl
                            (free-IsCounted a q i w n
                              (ground (arith, c.within, c.limit, inc_le_two (size v))))
                            (covers, apart),
                      )
                      | inr (i, same, why) ↦
                          rw (i, same, put-same key v t.fs_nodes f)
                            (skipped, t, refl, unchanged skipped (refl, rw f why))
                    ])
            ]

    module _ (r : IterRange) (some_elems : r.first < r.last)
        (over : Overlapping (elems v) (rng_offset e) (rng_end_offset e) r) where
      abbrev left : RangeVector
      left = (rem_range r v).0

      removed : RemSpec r (elems v) (rem_range r v)
      removed = rem_range-RemSpec r some_elems v over.1 valid.0

      left-size : size left + (r.last - r.first) ≡ size v
      left-size = rw removed.1 (length-remove_slice r.first r.last (elems v) (omega arith) over.1)

      left-bytes : bytes left + data_of (members (elems v) r) ≡ bytes v
      left-bytes = rw removed.1 (data_of-remove_slice r.first r.last (elems v) (omega arith))

      left-Covers : (p : ℕ) → Covers (elems left) p ↔ CoversApart (elems v) e p
      left-Covers p = rw removed.1 (
        (λ x.
            let (i, b, o, l, u) =
              (Covers-remove_slice r.first r.last (elems v) p (omega arith) over.1).0 x in
            (i, b, ground (arith, (over.2 i b).1), l, u)),
        (λ (i, b, o, l, u).
            (Covers-remove_slice r.first r.last (elems v) p (omega arith) over.1).1
              (i, b, ground (arith, (over.2 i b).0), l, u)),
      )

      over-IsCounted :
          (a : AddResult)
          → add_range e left ≡ some a
          → a.inserted ≡ true
          → IsValid a.vec
          → size a.vec ≡ size left + 1
          → IsCounted (
              on_inc_entries e (record (on_dec_entries_of (members (elems v) r) t) {
                cnt_ranges = u64 (
                    t.cnt_ranges
                    - calc_dec_cnt_ranges (size v) (size v - size left)
                    + calc_inc_cnt_ranges (size left));
                fs_nodes = put key a.vec t.fs_nodes;
              }))
      unfolding on_inc_entries on_dec_entries_of on_dec_entries
      over-IsCounted a q i w n =
          let dec = calc_dec_cnt_ranges (size v) (size v - size left) in
          let inc = calc_inc_cnt_ranges (size left) in
          let max = IsValid-size v valid.0 in
          let fewer = dec_on_heap v left (omega (arith, left-size)) max in
          let more = inc_on_heap left a.vec n in
          let most = total-find on_heap key v t.fs_nodes f in
          let le = dec_ge_inc v left (omega (arith, left-size)) max in
          let exact : u64 (t.cnt_ranges - dec + inc) ≡ t.cnt_ranges - dec + inc =
            omega (arith, c.limit, c.within, fewer, most, c.ranges, le) in
          let cnt = length-slice r.first r.last (elems v) (omega arith) over.1 in
          IsCounted-put key v a.vec t _ c f w (omega arith) refl refl
            (omega (arith, exact, fewer, more, most, c.ranges))
            (λ m h. omega (arith, c.entries, cnt, left-size, n, max))
            (λ m h. omega (arith, c.data_bytes, left-bytes, add_range-bytes e left q i))
            (omega (arith, exact, c.within, fewer, most, c.ranges, le))

      over-Covers :
          (a : AddResult)
          → ((p : ℕ) → Covers (elems a.vec) p ↔ (Covers (elems left) p ⊎ Holds e p))
          → (p : ℕ) → Covers (elems a.vec) p ↔ (CoversApart (elems v) e p ⊎ Holds e p)
      over-Covers a covers p = (
        (λ x. elim ((covers p).0 x) [ inl l ↦ inl ((left-Covers p).0 l) | inr h ↦ inr h ]),
        (λ x. elim x [
          | inl l ↦ (covers p).1 (inl ((left-Covers p).1 l))
          | inr h ↦ (covers p).1 (inr h)
        ]),
      )

      shared : (p : ℕ) × Holds e p × Covers (elems v) p
      shared =
          let o = (over.2 r.first (omega (arith, over.1))).0 (le_refl _, some_elems) in
          elim (Bool-cases (leb (rng_offset (at (elems v) r.first)) (rng_offset e))) [
            | inl t ↦ (
              rng_offset e,
              (le_refl _, nonempty),
              (r.first, omega (arith, over.1), ground arith, o.1),
            )
            | inr n ↦ (
              rng_offset (at (elems v) r.first),
              (ground arith, o.0),
              (
                r.first,
                omega (arith, over.1),
                le_refl _,
                ground (arith, (elems-IsSorted v valid.0).nonempty r.first, over.1),
              ),
            )
          ]

      not_left : (p : ℕ) → Holds e p → ¬ Covers (elems left) p
      not_left p h x = let (i, b, o, l, u) = (left-Covers p).0 x in ground arith

      add_over-AddOutcome :
          (r' : AddRes) × (t' : FsTable) × (add_over key e r v t ≡ some (r', t'))
          × AddOutcome key e t r' t'
      unfolding add_over on_inc_entries
      add_over-AddOutcome =
          let (a, q, spec) = add_range-AddSpec e nonempty left removed.0 in
          let max = IsValid-size v valid.0 in
          let fewer = dec_on_heap v left (omega (arith, left-size)) max in
          let most = total-find on_heap key v t.fs_nodes f in
          let enough : ltb t.cnt_ranges (calc_dec_cnt_ranges (size v) (size v - size left))
              ≡ false =
            ground (arith, fewer, most, c.ranges) in
          let le : ltb (calc_dec_cnt_ranges (size v) (size v - size left))
                (calc_inc_cnt_ranges (size left))
              ≡ false =
            ground (arith, dec_ge_inc v left (omega (arith, left-size)) max) in
          elim spec [
            | inl (i, w, n, covers, apart) ↦
                rw (enough, le, q)
                  (
                    overwrote,
                    _,
                    refl,
                    replaced overwrote a.vec _ refl (over-IsCounted a q i w n)
                        (over-Covers a covers, shared),
                  )
            | inr (i, same, why) ↦ absurd (elim why [
              | inl full ↦ omega (arith, full, left-size, max)
              | inr (p, h, x) ↦ not_left p h x
            ])
          ]

    no_overlap :
        (r : IterRange)
        → r.first ≡ r.last
        → Overlapping (elems v) (rng_offset e) (rng_end_offset e) r
        → (p : ℕ) → Holds e p
        → ¬ Covers (elems v) p
    no_overlap r same over p h (i, b, l, u) = ground (arith, (over.2 i b).1)

    add_found-AddOutcome :
        (overwrite : List RangeElem → RangeElem → Bool)
        → (r : AddRes) × (t' : FsTable) × (add_to key e overwrite t (some v) ≡ some (r, t'))
          × AddOutcome key e t r t'
    unfolding add_to
    add_found-AddOutcome overwrite =
        let rng : Range = record { beg = rng_offset e; len = rng_size e } in
        let rngs : IterRange = find_in_range (elems v) rng in
        let filled : (size v == 0) ≡ false = ground (arith, valid.1) in
        let over : Overlapping (elems v) (rng_offset e) (rng_end_offset e) rngs =
          rw (rng_end_offset-eq e sound) (
            find_in_range-Overlapping (elems v) (elems-IsSorted v valid.0) rng
              (omega (arith, fits, rng_end_offset-eq e sound)) sound.nonempty) in
        rw (to_range-some, filled)
          (elim (Bool-cases (rngs.first == rngs.last)) [
            | inl same ↦ rw same (add_free-AddOutcome (no_overlap rngs ((==_iff _ _).0 same) over))
            | inr differ ↦
                let some_elems : rngs.first < rngs.last = ground (arith, over.0) in
                rw differ (elim (Bool-cases (overwrite (members (elems v) rngs) e)) [
                  | inl yes_over ↦ rw yes_over (add_over-AddOutcome rngs some_elems over)
                  | inr no_over ↦ rw no_over (
                    skipped,
                    t,
                    refl,
                    unchanged skipped (refl, rw f (inr (shared rngs some_elems over))),
                  )
                ])
          ])

  -- On a table with true counters, for a sound element that ends inside the largest object, and
  -- whatever the overwrite condition answers, add_entry does not abort; the counters stay true,
  -- the vectors of other keys stay, and the bytes covered under the key change as the answer
  -- (added, overwrote, skipped, limit_reached) says.
  pub add_entry-AddOutcome :
      (overwrite : List RangeElem → RangeElem → Bool)
      → (r : AddRes) × (t' : FsTable) × (add_entry key e overwrite t ≡ some (r, t'))
        × AddOutcome key e t r t'
  unfolding add_entry add_to
  add_entry-AddOutcome overwrite = elim (Option-cases (find key t.fs_nodes)) [
    | inl n ↦ rw n (add_node-AddOutcome n)
    | inr (v, f) ↦ rw f (add_found-AddOutcome v f overwrite)
  ]
