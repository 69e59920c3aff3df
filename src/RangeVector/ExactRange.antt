-- ===== src/RangeVector/ExactRange.antt =====
-- find_exact_range: a gapless row of elements with exactly the ends of the range, if there is one.
use cache_work.Prelude.{
  ℕ, ◌+◌, ◌-◌, ◌≤◌, ◌<◌, ◌^◌, ◌≡◌, ◌⊎◌, inl, inr, refl, ap, List, true, false, length, ltb, ◌==◌,
  ◌&&◌, Bool-cases, ==_iff, arith,
}
use native.Mathlib.Nat.{le_refl}
use cache_work.Units.{u64}
use cache_work.Range.{Range, end_of}
use cache_work.RangeElem.{RangeElem, rng_offset, rng_end_offset}
use cache_work.RangeVector.{at, IterRange, no_elems, find_full_range, find_exact_range}
use cache_work.RangeVector.Sorted.{IsSorted, Holds, Covers}
use cache_work.RangeVector.FullRange.{Fills, find_full_range-FullResult}

-- The elements at positions [first, last) are a gapless row from `beg` to `stop`.
pub record IsRow (xs : List RangeElem) (beg stop first last : ℕ) : Type 0 where
  pub some_elems : first < last
  pub inside : last ≤ length xs
  pub begins : rng_offset (at xs first) ≡ beg
  pub ends : rng_end_offset (at xs (last - 1)) ≡ stop
  pub fills : Fills xs first last beg stop

module _ (xs : List RangeElem) (s : IsSorted xs) (rng : Range) (fits : rng.beg + rng.len < 2 ^ 64)
    (some_bytes : 0 < rng.len) where
  -- The outcome of find_exact_range.
  abbrev pub ExactResult : IterRange → Type 0
  ExactResult r =
      IsRow xs rng.beg (rng.beg + rng.len) r.first r.last
      ⊎ ((r ≡ no_elems xs) × ((first last : ℕ) → ¬ IsRow xs rng.beg (rng.beg + rng.len) first last))

  pub same_at :
      (i j p : ℕ) → i < length xs → j < length xs → Holds (at xs i) p → Holds (at xs j) p → i ≡ j
  same_at i j p b c h k = elim (Bool-cases (ltb i j)) [
    | inl t ↦ ground (arith, s.ordered i j)
    | inr n ↦ ground (arith, s.ordered j i, (==_iff i j).0)
  ]

  no_row :
      (first last : ℕ)
      → IsRow xs rng.beg (rng.beg + rng.len) first last
      → (p : ℕ) → rng.beg ≤ p
      → p < rng.beg + rng.len
      → ¬ Covers xs p
      → ⊥
  no_row first last row p l u free =
      let (i, lo, hi, b, e) = row.fills p l u in free (i, omega (arith, row.inside), b, e)

  -- On a sorted vector and a non-empty range whose end does not wrap, find_exact_range yields a
  -- gapless row with exactly the ends of the range, or no elements, and then there is no such
  -- row.
  pub find_exact_range-ExactResult : ExactResult (find_exact_range xs rng)
  unfolding find_exact_range end_of
  find_exact_range-ExactResult =
      let r : IterRange = find_full_range xs rng in
      elim (find_full_range-FullResult xs s rng fits some_bytes) [
        | inl (q, (p, l, u, free)) ↦
            let none : (r.first == r.last) ≡ true = ground arith in
            rw none (inr (q, λ first last row. no_row first last row p l u free))
        | inr (lt, w, lo, mid, hi, reach, fills) ↦
            elim (Bool-cases (
              rng_offset (at xs r.first) == rng.beg
              && rng_end_offset (at xs (r.last - 1)) == u64 (rng.beg + rng.len))) [
                | inl t ↦
                    let some_elems : (r.first == r.last) ≡ false = ground arith in
                    rw (some_elems, t)
                      (inl (record {
                        some_elems = lt;
                        inside = w;
                        begins = ground arith;
                        ends = ground arith;
                        fills = fills;
                      }))
                | inr n ↦
                    let some_elems : (r.first == r.last) ≡ false = ground arith in
                    rw (some_elems, n)
                      (inr (
                        refl,
                        λ first last row.
                            let a =
                              same_at first r.first rng.beg
                                (omega (arith, row.some_elems, row.inside)) (omega arith)
                                (
                                  rw row.begins (le_refl _),
                                  rw (← row.begins) (
                                      s.nonempty first (omega (arith, row.some_elems, row.inside))),
                                )
                                (lo, mid) in
                            let z =
                              same_at (last - 1) (r.last - 1) (rng.beg + rng.len - 1)
                                (omega (arith, row.some_elems, row.inside)) (omega arith)
                                (
                                  ground (
                                    arith,
                                    s.nonempty (last - 1),
                                    row.ends,
                                    row.some_elems,
                                    row.inside,
                                  ),
                                  omega (arith, row.ends),
                                )
                                (omega arith, omega arith) in
                            ground (
                              arith,
                              row.begins,
                              row.ends,
                              ap (λ k. rng_offset (at xs k)) a,
                              ap (λ k. rng_end_offset (at xs k)) z,
                            ),
                      ))
              ]
      ]
