-- ===== src/FsOperations/Adding.antt =====
-- fsmd_add_new_fragment on the table: what it overwrites has no readers.
use cache_work.Prelude.{
  ℕ, suc, ◌+◌, ◌-◌, ◌≤◌, ◌<◌, ◌≡◌, inl, inr, ap, ◌∙◌, sym, false, ◌==◌, ltb, leb, Bool-cases, some,
  none, List, [], ◌∷◌, length, insert_at, length-insert_at, slice, length-slice,
  get_or-insert_at_before, get_or-insert_at_after, get_or-take, get_or-drop, arith,
}
use cache_work.Units.{ranges_overlap}
use cache_work.RangeElem.{RangeElem, rng_offset, rng_end_offset, has_readers, make_zero_range_elem}
use cache_work.RangeVector.{RangeVector, single, heap, elems, at, lower_bound, max_ranges}
use cache_work.RangeVector.Update.{
  AddResult, add_between, add_range_impl, add_second, add_range, add_at_pos,
}
use cache_work.RangeVector.Sorted.{lower_bound-le}
use cache_work.FsOperations.Writes.{any_readers}
use cache_work.FsOperations.Kept.{Keeps, Keeps-refl, any_readers-at}

insert_at-Keeps :
    (k : ℕ) (e : RangeElem) (xs : List RangeElem) → k ≤ length xs → Keeps xs (insert_at k e xs)
insert_at-Keeps k e xs h i b r = elim (Bool-cases (ltb i k)) [
  | inl t ↦ (
    i,
    omega (arith, length-insert_at k e xs),
    get_or-insert_at_before k e make_zero_range_elem xs i (ground arith) h,
  )
  | inr f ↦ (
    suc i,
    omega (arith, length-insert_at k e xs),
    get_or-insert_at_after k e make_zero_range_elem xs i (ground arith),
  )
]

add_between-Keeps :
    (e : RangeElem) (it cap alloc : ℕ) (xs : List RangeElem)
    → it ≤ length xs
    → Keeps xs (elems (add_between e it cap alloc xs).vec)
unfolding add_between add_at_pos
add_between-Keeps e it cap alloc xs h =
    elim (Bool-cases (ltb (rng_offset e) (rng_end_offset (at xs (it - 1))))) [
      | inl t ↦ rw t (Keeps-refl xs)
      | inr f ↦ rw f (elim (Bool-cases (ltb (rng_offset (at xs it)) (rng_end_offset e))) [
        | inl t ↦ rw t (Keeps-refl xs)
        | inr g ↦ rw g (insert_at-Keeps it e xs h)
      ])
    ]

add_range_impl-Keeps :
    (e : RangeElem) (cap alloc : ℕ) (xs : List RangeElem)
    → Keeps xs (elems (add_range_impl e cap alloc xs).vec)
unfolding add_range_impl add_at_pos
add_range_impl-Keeps e cap alloc xs =
    let it : ℕ = lower_bound (rng_offset e) xs in
    elim (Bool-cases (it == 0)) [
      | inl t ↦ rw t (elim (Bool-cases (leb (rng_end_offset e) (rng_offset (at xs 0)))) [
        | inl u ↦ rw u (insert_at-Keeps 0 e xs (omega arith))
        | inr u ↦ rw u (Keeps-refl xs)
      ])
      | inr f ↦ rw f (elim (Bool-cases (it == length xs)) [
        | inl t ↦ rw t (elim (Bool-cases (leb (rng_end_offset (at xs (it - 1))) (rng_offset e))) [
          | inl u ↦ rw u (insert_at-Keeps (length xs) e xs (omega arith))
          | inr u ↦ rw u (Keeps-refl xs)
        ])
        | inr g ↦ rw g (add_between-Keeps e it cap alloc xs (lower_bound-le (rng_offset e) xs))
      ])
    ]

some_vec : {r r' : AddResult} → some r ≡ some r' → r ≡ r'
some_vec q = cc

pub add_range-Keeps :
    (e : RangeElem) (v : RangeVector) {r : AddResult}
    → add_range e v ≡ some r
    → Keeps (elems v) (elems r.vec)
unfolding add_range add_second
add_range-Keeps e (single x) {r} q =
    elim (Bool-cases
      (ranges_overlap (rng_offset x) (rng_end_offset x) (rng_offset e) (rng_end_offset e) == 0)) [
        | inl t ↦ elim (Bool-cases (add_range_impl e 2 2 (x ∷ [])).inserted) [
          | inl u ↦
              let p = some_vec (rw (t, u) at q) in rw (sym p) (add_range_impl-Keeps e 2 2 (x ∷ []))
          | inr u ↦ let p : none ≡ some r = rw (t, u) at q in absurd cc
        ]
        | inr f ↦ let p = some_vec (rw f at q) in rw (sym p) (Keeps-refl (x ∷ []))
      ]
add_range-Keeps e (heap alloc []) q = λ i b h. absurd (omega arith)
add_range-Keeps e (heap alloc (x ∷ [])) {r} q = let p : none ≡ some r = q in absurd cc
add_range-Keeps e (heap alloc (x ∷ (y ∷ zs))) q =
    elim (Bool-cases (length (x ∷ (y ∷ zs)) == max_ranges)) [
      | inl t ↦ let p = some_vec (rw t at q) in rw (sym p) (Keeps-refl (x ∷ (y ∷ zs)))
      | inr f ↦
          let p = some_vec (rw f at q) in rw (sym p) (add_range_impl-Keeps e _ alloc (x ∷ (y ∷ zs)))
    ]

-- The elements that are overwritten have no readers.
pub slice_unread :
    (i j : ℕ) (xs : List RangeElem)
    → i ≤ j
    → j ≤ length xs
    → any_readers (slice i j xs) ≡ false
    → (m : ℕ) → i ≤ m
    → m < j
    → has_readers (at xs m) ≡ false
slice_unread i j xs h k u m a b =
    let q : i + (m - i) ≡ m = omega arith in
    let s = any_readers-at (slice i j xs) u (m - i) (omega (arith, length-slice i j xs h k)) in
    let e =
      get_or-take (j - i) (m - i) make_zero_range_elem _ (omega arith)
      ∙ get_or-drop i (m - i) make_zero_range_elem xs in
    ap has_readers (sym (e ∙ ap (at xs) q)) ∙ s
