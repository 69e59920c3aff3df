-- ===== src/RangeVector/Insertion.antt =====
-- add_range keeps the vector sorted, and inserts exactly where nothing overlaps.
pub mod Adding
use native.Mathlib.Nat.{le_refl}
use cache_work.Prelude.{
  ℕ, zero, suc, ◌+◌, ◌-◌, ◌≤◌, ◌<◌, ◌≡◌, ◌≢◌, ◌⊎◌, ◌↔◌, inl, inr, refl, sym, ap, ◌∙◌, List, [], ◌∷◌,
  true, false, length, ltb, leb, ◌==◌, Bool-cases, arith, if◌then◌else◌, insert_at, Option, some,
  none, length-insert_at, get_or-insert_at_before, get_or-insert_at_self, get_or-insert_at_after,
}
use cache_work.Units.{ranges_overlap}
use cache_work.Units.Rounding.{ranges_overlap_pos, ranges_overlap_zero}
use cache_work.RangeElem.{
  RangeElem, rng_offset, rng_end_offset, make_zero_range_elem, set_mark, rng_size,
}
use cache_work.RangeVector.{
  RangeVector, single, heap, at, lower_bound, max_ranges, elems, size, empty_data,
}
use cache_work.RangeVector.Update.{
  AddResult, add_at_pos, added, rejected, add_between, add_range_impl, add_second, add_range,
}
use cache_work.RangeVector.Sorted.{
  IsSorted, IsValid, Holds, Covers, lower_bound-le, lower_bound-before, lower_bound-at,
}

-- Where position `i` of the longer list comes from.
pub at-insert_at :
    (k : ℕ) (e : RangeElem) (xs : List RangeElem) (i : ℕ)
    → k ≤ length xs
    → ((i < k) × (at (insert_at k e xs) i ≡ at xs i))
      ⊎ ((i ≡ k) × (at (insert_at k e xs) i ≡ e))
      ⊎ ((k < i) × (at (insert_at k e xs) i ≡ at xs (i - 1)))
at-insert_at k e xs i h = elim (Bool-cases (ltb i k)) [
  | inl t ↦
      let p : i < k = ground arith in
      inl (p, get_or-insert_at_before k e make_zero_range_elem xs i p h)
  | inr f ↦ inr (elim (Bool-cases (i == k)) [
    | inl t ↦
        let p : i ≡ k = ground arith in
        inl (p, rw p (get_or-insert_at_self k e make_zero_range_elem xs h))
    | inr g ↦
        let q : i ≡ suc (i - 1) = ground arith in
        inr (
          ground arith,
          ap (λ m. at (insert_at k e xs) m) q
              ∙ get_or-insert_at_after k e make_zero_range_elem xs (i - 1) (ground arith),
        )
  ])
]

module _ (xs : List RangeElem) (s : IsSorted xs) (e : RangeElem)
    (ne : rng_offset e < rng_end_offset e) where
  -- Position `k` is free for the element.
  pub record IsFree (k : ℕ) : Type 0 where
    pub inside : k ≤ length xs
    pub before : (i : ℕ) → i < k → rng_end_offset (at xs i) ≤ rng_offset e
    pub after : (i : ℕ) → k ≤ i → i < length xs → rng_end_offset e ≤ rng_offset (at xs i)

  pub insert_at-IsSorted : (k : ℕ) → IsFree k → IsSorted (insert_at k e xs)
  insert_at-IsSorted k f = record {
    nonempty = λ i b. ground (
      arith,
      at-insert_at k e xs i f.inside,
      length-insert_at k e xs,
      s.nonempty i,
      s.nonempty (i - 1),
    );
    ordered = λ i j l b. ground (
      arith,
      at-insert_at k e xs i f.inside,
      at-insert_at k e xs j f.inside,
      length-insert_at k e xs,
      s.ordered i j,
      s.ordered i (j - 1),
      s.ordered (i - 1) (j - 1),
      f.before i,
      f.after (j - 1),
    );
  }

  -- What add_range_impl does.
  abbrev pub ImplResult : (cap alloc : ℕ) → AddResult → Type 0
  ImplResult cap alloc r =
      ((k : ℕ) × IsFree k × (r ≡ added e k cap alloc xs))
      ⊎ ((i : ℕ) × (i < length xs)
          × (rng_offset e < rng_end_offset (at xs i))
          × (rng_offset (at xs i) < rng_end_offset e)
          × (r ≡ rejected i (heap alloc xs)))

  impl_front :
      (cap alloc : ℕ)
      → 0 < length xs
      → lower_bound (rng_offset e) xs ≡ 0
      → ImplResult cap alloc (
          if leb (rng_end_offset e) (rng_offset (at xs 0))
          then added e 0 cap alloc xs
          else rejected 0 (heap alloc xs))
  impl_front cap alloc h l = elim (Bool-cases (leb (rng_end_offset e) (rng_offset (at xs 0)))) [
    | inl t ↦ rw t (
        inl (
          0,
          record {
            inside = omega arith;
            before = λ i b. absurd (omega arith);
            after = λ i a b. ground (arith, s.ordered 0 i, s.nonempty 0);
          },
          refl,
        ))
    | inr f ↦ rw f (
        inr (
          0,
          h,
          ground (arith, lower_bound-at (rng_offset e) xs, s.nonempty 0),
          ground arith,
          refl,
        ))
  ]

  impl_back :
      (cap alloc : ℕ)
      → 0 < length xs
      → lower_bound (rng_offset e) xs ≡ length xs
      → ImplResult cap alloc (
          if leb (rng_end_offset (at xs (length xs - 1))) (rng_offset e)
          then added e (length xs) cap alloc xs
          else rejected (length xs - 1) (heap alloc xs))
  impl_back cap alloc h l =
      let n : ℕ = length xs - 1 in
      elim (Bool-cases (leb (rng_end_offset (at xs n)) (rng_offset e))) [
        | inl t ↦ rw t (
            inl (
              length xs,
              record {
                inside = le_refl _;
                before = λ i b. ground (arith, s.ordered i n, s.nonempty n);
                after = λ i a b. absurd (omega arith);
              },
              refl,
            ))
        | inr f ↦ rw f (
            inr (
              n,
              omega arith,
              ground arith,
              ground (arith, lower_bound-before (rng_offset e) xs n),
              refl,
            ))
      ]

  impl_between :
      (it cap alloc : ℕ)
      → 0 < it
      → it < length xs
      → lower_bound (rng_offset e) xs ≡ it
      → ImplResult cap alloc (add_between e it cap alloc xs)
  unfolding add_between
  impl_between it cap alloc h w l =
      let m : ℕ = it - 1 in
      elim (Bool-cases (ltb (rng_offset e) (rng_end_offset (at xs m)))) [
        | inl t ↦ rw t (
            inr (
              m,
              omega arith,
              ground arith,
              ground (arith, lower_bound-before (rng_offset e) xs m),
              refl,
            ))
        | inr f ↦ rw f (elim (Bool-cases (ltb (rng_offset (at xs it)) (rng_end_offset e))) [
          | inl t ↦ rw t (
              inr (
                it,
                w,
                ground (arith, lower_bound-at (rng_offset e) xs, s.nonempty it),
                ground arith,
                refl,
              ))
          | inr g ↦ rw g (
              inl (
                it,
                record {
                  inside = omega arith;
                  before = λ i b. ground (arith, s.ordered i m, s.nonempty m);
                  after = λ i a b. ground (arith, s.ordered it i, s.nonempty it);
                },
                refl,
              ))
        ])
      ]

  pub add_range_impl-ImplResult :
      (cap alloc : ℕ) → 0 < length xs → ImplResult cap alloc (add_range_impl e cap alloc xs)
  unfolding add_range_impl
  add_range_impl-ImplResult cap alloc h =
      let l : ℕ = lower_bound (rng_offset e) xs in
      elim (Bool-cases (l == 0)) [
        | inl t ↦ rw t (impl_front cap alloc h (ground arith))
        | inr f ↦ rw f (elim (Bool-cases (l == length xs)) [
          | inl t ↦ let q : l ≡ length xs = ground arith in rw (t, q) (impl_back cap alloc h q)
          | inr g ↦ rw g (
              impl_between l cap alloc (ground arith)
                (ground (arith, lower_bound-le (rng_offset e) xs)) refl)
        ])
      ]
