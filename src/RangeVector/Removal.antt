-- ===== src/RangeVector/Removal.antt =====
-- rem_range takes out the elements at the given positions, and keeps the vector valid.

use cache_work.Prelude.{
  ℕ, zero, suc, ◌+◌, ◌-◌, ◌≤◌, ◌<◌, ◌≡◌, ◌⊎◌, ◌↔◌, inl, inr, refl, sym, ap, List, [], ◌∷◌, length,
  ltb, ◌==◌, Bool-cases, arith, remove_slice, drop, length-remove_slice, get_or-remove_slice_before,
  get_or-remove_slice_after,
}
use cache_work.RangeElem.{RangeElem, rng_offset, rng_end_offset, make_zero_range_elem}
use cache_work.RangeVector.{RangeVector, single, heap, at, max_ranges, elems, size, IterRange}
use cache_work.RangeVector.Update.{rem_from_block, rem_range}
use cache_work.RangeVector.Sorted.{IsSorted, IsValid, Covers}

-- Where position `m` of what is left comes from.
pub at-remove_slice :
    (i j : ℕ) (xs : List RangeElem) (m : ℕ)
    → i ≤ j
    → j ≤ length xs
    → ((m < i) × (at (remove_slice i j xs) m ≡ at xs m))
      ⊎ ((i ≤ m) × (at (remove_slice i j xs) m ≡ at xs (m + (j - i))))
at-remove_slice i j xs m h k = elim (Bool-cases (ltb m i)) [
  | inl t ↦ inl (
    ground arith,
    get_or-remove_slice_before i j m make_zero_range_elem xs (ground arith) (omega arith),
  )
  | inr f ↦
      inr (ground arith, get_or-remove_slice_after i j m make_zero_range_elem xs h (ground arith) k)
]

pub remove_slice-IsSorted :
    (i j : ℕ) (xs : List RangeElem)
    → i ≤ j
    → j ≤ length xs
    → IsSorted xs
    → IsSorted (remove_slice i j xs)
remove_slice-IsSorted i j xs h k s = record {
  nonempty = λ m b. ground (
    arith,
    at-remove_slice i j xs m h k,
    length-remove_slice i j xs h k,
    s.nonempty m,
    s.nonempty (m + (j - i)),
  );
  ordered = λ m n l b. ground (
    arith,
    at-remove_slice i j xs m h k,
    at-remove_slice i j xs n h k,
    length-remove_slice i j xs h k,
    s.ordered m n,
    s.ordered m (n + (j - i)),
    s.ordered (m + (j - i)) (n + (j - i)),
  );
}

-- A byte is covered by what is left exactly when an element outside [i, j) holds it.
pub Covers-remove_slice :
    (i j : ℕ) (xs : List RangeElem) (p : ℕ)
    → i ≤ j
    → j ≤ length xs
    → Covers (remove_slice i j xs) p ↔ (
        (m : ℕ) × (m < length xs)
        × ((m < i) ⊎ (j ≤ m))
        × (rng_offset (at xs m) ≤ p)
        × (p < rng_end_offset (at xs m)))
Covers-remove_slice i j xs p h k = (
  (λ (m, b, l, u). elim (at-remove_slice i j xs m h k) [
    | inl (c, q) ↦ (m, omega arith, inl c, rw (← q) l, rw (← q) u)
    | inr (c, q) ↦ (
      m + (j - i),
      omega (arith, length-remove_slice i j xs h k),
      inr (omega arith),
      rw (← q) l,
      rw (← q) u,
    )
  ]),
  (λ (m, b, o, l, u). elim o [
    | inl c ↦
        let q = get_or-remove_slice_before i j m make_zero_range_elem xs c (omega arith) in
        (m, omega (arith, length-remove_slice i j xs h k), rw q l, rw q u)
    | inr c ↦
        let e : m - (j - i) + (j - i) ≡ m = omega arith in
        let q =
          get_or-remove_slice_after i j (m - (j - i)) make_zero_range_elem xs h (omega arith) k in
        (m - (j - i), omega (arith, length-remove_slice i j xs h k), rw (q, e) l, rw (q, e) u)
  ]),
)

empty_IsSorted : IsSorted []
empty_IsSorted = record {
  nonempty = λ i b. absurd (omega arith);
  ordered = λ i j l b. absurd (omega arith);
}

drop_all : (n : ℕ) (xs : List RangeElem) → n ≡ length xs → drop n xs ≡ []
drop_all zero [] h = refl
drop_all zero (x ∷ xs) h = absurd (omega arith)
drop_all (suc n) [] h = refl
drop_all (suc n) (x ∷ xs) h = drop_all n xs (omega arith)

drop_last : (n : ℕ) (xs : List RangeElem) → n + 1 ≡ length xs → drop n xs ≡ at xs n ∷ []
drop_last zero [] h = absurd (omega arith)
drop_last zero (x ∷ []) h = refl
drop_last zero (x ∷ y ∷ xs) h = absurd (omega arith)
drop_last (suc n) [] h = absurd (omega arith)
drop_last (suc n) (x ∷ xs) h = drop_last n xs (omega arith)

-- What rem_range leaves: a valid vector of the other elements, and the position behind them.
abbrev pub RemSpec : IterRange → List RangeElem → RangeVector × ℕ → Type 0
RemSpec r xs out =
    IsValid out.0 × (elems out.0 ≡ remove_slice r.first r.last xs) × (out.1 ≡ r.first)

module _ (r : IterRange) (some_elems : r.first < r.last) where
  block-RemSpec :
      (x y : RangeElem) (zs : List RangeElem)
      → r.last ≤ length (x ∷ y ∷ zs)
      → length (x ∷ y ∷ zs) ≤ max_ranges
      → IsSorted (x ∷ y ∷ zs)
      → RemSpec r (x ∷ y ∷ zs) (rem_from_block r (x ∷ y ∷ zs))
  unfolding rem_from_block
  block-RemSpec x y zs h m s =
      let xs = x ∷ y ∷ zs in
      let n : ℕ = length xs - (r.last - r.first) in
      let k = length-remove_slice r.first r.last xs (omega arith) h in
      elim (Bool-cases (n == 0)) [
        | inl t ↦
            let f : r.first ≡ 0 = ground arith in
            rw (t, f)
              (
                (refl, (λ e. ground arith), omega arith, empty_IsSorted),
                sym (drop_all r.last xs (ground arith)),
                refl,
              )
        | inr g ↦ rw g (elim (Bool-cases (n == 1)) [
          | inl t ↦ rw t (elim (Bool-cases (ltb 0 r.first)) [
            | inl u ↦
                let f : r.first ≡ 1 = ground arith in
                rw (u, f)
                  (
                    s.nonempty 0 (omega arith),
                    sym (ap (λ t. x ∷ t) (drop_all r.last xs (ground arith))),
                    refl,
                  )
            | inr u ↦
                let f : r.first ≡ 0 = ground arith in
                let l : r.last + 1 ≡ length xs = ground arith in
                rw (u, f) (s.nonempty r.last (omega arith), sym (drop_last r.last xs l), refl)
          ])
          | inr u ↦ rw u (
            (
              omega (arith, k),
              λ e. ground (arith, k),
              omega (arith, k),
              remove_slice-IsSorted r.first r.last xs (omega arith) h s,
            ),
            refl,
            refl,
          )
        ])
      ]

  -- On a valid vector and a non-empty run of its positions, rem_range leaves a valid vector of
  -- exactly the other elements, and the position behind them.
  pub rem_range-RemSpec :
      (v : RangeVector) → r.last ≤ size v → IsValid v → RemSpec r (elems v) (rem_range r v)
  unfolding rem_range
  rem_range-RemSpec (single e) h v =
      let f : r.first ≡ 0 = omega arith in
      let l : r.last ≡ 1 = omega arith in
      rw (f, l) ((refl, (λ e. omega arith), omega arith, empty_IsSorted), refl, refl)
  rem_range-RemSpec (heap alloc []) h v = absurd (omega arith)
  rem_range-RemSpec (heap alloc (x ∷ [])) h v = absurd (v.1 refl)
  rem_range-RemSpec (heap alloc (x ∷ y ∷ zs)) h v = block-RemSpec x y zs h v.2 v.3
