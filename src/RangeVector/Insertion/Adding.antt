-- ===== src/RangeVector/Insertion/Adding.antt =====
-- add_range as a whole: the small buffer, the heap, and the limit on the number of ranges.
use native.Mathlib.Nat.{le_refl}
use cache_work.Prelude.{
  ℕ, zero, suc, ◌+◌, ◌-◌, ◌≤◌, ◌<◌, ◌≡◌, ◌⊎◌, ◌↔◌, inl, inr, refl, sym, ap, ◌∙◌, List, [], ◌∷◌,
  true, false, length, ltb, leb, ◌==◌, Bool-cases, ==_iff, arith, if◌then◌else◌, insert_at, some,
  none, length-insert_at, get_or-insert_at_before, get_or-insert_at_self, get_or-insert_at_after,
}
use cache_work.Units.{ranges_overlap}
use cache_work.Units.Rounding.{ranges_overlap_pos, ranges_overlap_zero}
use cache_work.RangeElem.{RangeElem, make_zero_range_elem, rng_offset, rng_end_offset, set_mark}
use cache_work.RangeVector.{RangeVector, single, heap, at, max_ranges, elems, size}
use cache_work.RangeVector.Update.{
  AddResult, add_at_pos, rejected, add_range_impl, add_second, add_range,
}
use cache_work.RangeVector.Sorted.{IsSorted, IsValid, Holds, Covers, elems-IsSorted}
use cache_work.RangeVector.Insertion.{
  ImplResult, at-insert_at, insert_at-IsSorted, add_range_impl-ImplResult,
}

Covers-insert_at :
    (k : ℕ) (e : RangeElem) (xs : List RangeElem) (p : ℕ)
    → k ≤ length xs
    → Covers (insert_at k e xs) p ↔ (Covers xs p ⊎ Holds e p)
Covers-insert_at k e xs p h = (from, to)
  where
    from : Covers (insert_at k e xs) p → Covers xs p ⊎ Holds e p
    from (i, b, l, m) = elim (at-insert_at k e xs i h) [
      | inl (c, q) ↦ inl (i, omega arith, rw (← q) l, rw (← q) m)
      | inr (inl (c, q)) ↦ inr (rw (← q) l, rw (← q) m)
      | inr (inr (c, q)) ↦
          inl (i - 1, omega (arith, length-insert_at k e xs), rw (← q) l, rw (← q) m)
    ]

    to : Covers xs p ⊎ Holds e p → Covers (insert_at k e xs) p
    to (inl (i, b, l, m)) = elim (Bool-cases (ltb i k)) [
      | inl t ↦
          let q = get_or-insert_at_before k e make_zero_range_elem xs i (ground arith) h in
          (i, omega (arith, length-insert_at k e xs), rw q l, rw q m)
      | inr f ↦
          let q = get_or-insert_at_after k e make_zero_range_elem xs i (ground arith) in
          (suc i, omega (arith, length-insert_at k e xs), rw q l, rw q m)
    ]
    to (inr (l, m)) =
        let q = get_or-insert_at_self k e make_zero_range_elem xs h in
        (k, omega (arith, length-insert_at k e xs), rw q l, rw q m)

-- What add_range promises: the element is added, and then the vector covers its bytes and those
-- that it covered before, which were other bytes; or the vector stays as it is, because it is full
-- or already covers some byte of the element.
abbrev pub AddSpec : RangeElem → RangeVector → AddResult → Type 0
AddSpec e v r =
    ((r.inserted ≡ true)
      × IsValid r.vec
      × (size r.vec ≡ size v + 1)
      × ((p : ℕ) → Covers (elems r.vec) p ↔ (Covers (elems v) p ⊎ Holds e p))
      × ((p : ℕ) → Holds e p → ¬ Covers (elems v) p))
    ⊎ ((r.inserted ≡ false)
        × (r.vec ≡ v)
        × ((size v ≡ max_ranges) ⊎ ((p : ℕ) × Holds e p × Covers (elems v) p)))

at_singleton : (r : RangeElem) (i : ℕ) → i < 1 → at (r ∷ []) i ≡ r
at_singleton r zero h = refl
at_singleton r (suc i) h = absurd (omega arith)

pub set_mark_range :
    (e : RangeElem)
    → (rng_offset (set_mark e) ≡ rng_offset e) × (rng_end_offset (set_mark e) ≡ rng_end_offset e)
unfolding set_mark rng_offset rng_end_offset
set_mark_range e = (refl, refl)

pub single-Covers : (e : RangeElem) (p : ℕ) → Covers (set_mark e ∷ []) p ↔ (Covers [] p ⊎ Holds e p)
single-Covers e p =
    let (o, w) = set_mark_range e in
    (
      (λ (i, b, l, m).
          let q = at_singleton (set_mark e) i b in
          inr (omega (arith, ap rng_offset q, o), omega (arith, ap rng_end_offset q, w))),
      (λ c. elim c [
        | inl old ↦ absurd (omega (arith, old.1))
        | inr new ↦ (0, omega arith, rw o new.0, rw w new.1)
      ]),
    )

module _ (e : RangeElem) (ne : rng_offset e < rng_end_offset e) where
  -- The outcome of add_range_impl on a block that has room, or grows by one.
  spec-impl :
      (v : RangeVector) (xs : List RangeElem) (s : IsSorted xs) (cap alloc : ℕ)
      → elems v ≡ xs
      → 0 < length xs
      → length xs < max_ranges
      → (if length xs == cap then cap + 1 else alloc) ≡ length xs + 1
      → (r : AddResult) → ImplResult xs s e ne cap alloc r
      → ((r.inserted ≡ true) × AddSpec e v r)
        ⊎ ((i : ℕ) × (i < length xs)
            × (rng_offset e < rng_end_offset (at xs i))
            × (rng_offset (at xs i) < rng_end_offset e)
            × (r ≡ rejected i (heap alloc xs)))
  unfolding add_at_pos
  spec-impl v xs s cap alloc q h m room r (inr other) = inr other
  spec-impl v xs s cap alloc q h m room r (inl (k, f, w)) = inl (
    rw w refl,
    rw (w, q)
        (inl (
          refl,
          (
            room ∙ sym (length-insert_at k e xs),
            omega (arith, length-insert_at k e xs),
            omega (arith, length-insert_at k e xs),
            insert_at-IsSorted xs s e ne k f,
          ),
          length-insert_at k e xs,
          (λ p. Covers-insert_at k e xs p f.inside),
          (λ p a c. absurd (ground (arith, f.before c.0, f.after c.0))),
        )),
  )

  -- The byte where an overlap starts.
  shared :
      (xs : List RangeElem) (s : IsSorted xs) (i : ℕ)
      → i < length xs
      → rng_offset e < rng_end_offset (at xs i)
      → rng_offset (at xs i) < rng_end_offset e
      → (p : ℕ) × Holds e p × Covers xs p
  shared xs s i b l m = elim (Bool-cases (leb (rng_offset e) (rng_offset (at xs i)))) [
    | inl t ↦ (rng_offset (at xs i), (ground arith, m), (i, b, le_refl _, s.nonempty i b))
    | inr f ↦ (rng_offset e, (le_refl _, ne), (i, b, ground arith, l))
  ]

  add_heap-AddSpec :
      (alloc : ℕ) (xs : List RangeElem)
      → IsValid (heap alloc xs)
      → 0 < length xs
      → length xs < max_ranges
      → AddSpec e (heap alloc xs) (add_range_impl e (length xs) alloc xs)
  add_heap-AddSpec alloc xs v h m =
      let n : ℕ = length xs in
      elim (spec-impl (heap alloc xs) xs v.3 n alloc refl h m (ground arith) _
        (add_range_impl-ImplResult xs v.3 e ne n alloc h)) [
          | inl (t, spec) ↦ spec
          | inr (i, b, l, k, q) ↦ rw q (inr (refl, refl, inr (shared xs v.3 i b l k)))
        ]

  apart :
      (r : RangeElem)
      → IsValid (single r)
      → (ranges_overlap (rng_offset r) (rng_end_offset r) (rng_offset e) (rng_end_offset e) == 0)
        ≡ true
      → (rng_end_offset r ≤ rng_offset e) ⊎ (rng_end_offset e ≤ rng_offset r)
  apart r v t = ranges_overlap_zero _ _ _ _ v ne ((==_iff _ _).0 t)

  add_second-AddSpec :
      (r : RangeElem)
      → IsValid (single r)
      → (a : AddResult) × (add_second e r ≡ some a) × AddSpec e (single r) a
  unfolding add_second
  add_second-AddSpec r v =
      let xs = r ∷ [] in
      let s : IsSorted xs = elems-IsSorted (single r) v in
      elim (Bool-cases
        (ranges_overlap (rng_offset r) (rng_end_offset r) (rng_offset e) (rng_end_offset e) == 0)) [
          | inl t ↦
              rw t
                (elim (spec-impl (single r) xs s 2 2 refl (omega arith) (omega arith) refl _
                  (add_range_impl-ImplResult xs s e ne 2 2 (omega arith))) [
                    | inl (q, spec) ↦ (add_range_impl e 2 2 xs, rw q refl, spec)
                    | inr (i, b, l, k, q) ↦
                        let o = at_singleton r i b in
                        absurd (ground (arith, ap rng_offset o, ap rng_end_offset o, apart r v t))
                  ])
          | inr f ↦
              let o =
                (ranges_overlap_pos (rng_offset r) (rng_end_offset r) (rng_offset e)
                    (rng_end_offset e)).0
                  (ground arith) in
              rw f (
                rejected 0 (single r),
                refl,
                inr (refl, refl, inr (shared xs s 0 (omega arith) o.2 o.1)),
              )
        ]

  -- On a valid vector and a non-empty element, add_range does not abort; it inserts, so that
  -- exactly the bytes of the element are added, none was covered before, and the vector stays
  -- valid, or it changes nothing because a byte is covered or the vector is full.
  pub add_range-AddSpec :
      (v : RangeVector) → IsValid v → (a : AddResult) × (add_range e v ≡ some a) × AddSpec e v a
  unfolding add_range
  add_range-AddSpec (single r) v = add_second-AddSpec r v
  add_range-AddSpec (heap alloc []) v =
      let (o, w) = set_mark_range e in
      (
        record { pos = some 0; inserted = true; vec = single (set_mark e) },
        refl,
        inl (refl, rw (o, w) ne, refl, single-Covers e, (λ p h c. absurd (omega (arith, c.1)))),
      )
  add_range-AddSpec (heap alloc (x ∷ [])) v = absurd (v.1 refl)
  add_range-AddSpec (heap alloc (x ∷ y ∷ zs)) v =
      let xs = x ∷ y ∷ zs in
      elim (Bool-cases (length xs == max_ranges)) [
        | inl t ↦ rw t (
          record { pos = none; inserted = false; vec = heap alloc xs },
          refl,
          inr (refl, refl, inl (ground arith)),
        )
        | inr f ↦ rw f (
          add_range_impl e (length xs) alloc xs,
          refl,
          add_heap-AddSpec alloc xs v (omega arith) (ground (arith, v.2)),
        )
      ]
