-- ===== src/RangeVector/Trimming/Holes.antt =====
-- The two loops of trim_overlaps: what trim_to_first_hole and trim_to_last_hole find.

use cache_work.Prelude.{
  ℕ, zero, suc, ◌+◌, ◌-◌, ◌≤◌, ◌<◌, ◌≡◌, ◌⊎◌, inl, inr, refl, List, length, ltb, Bool-cases, arith,
  Option, none, some,
}
use cache_work.RangeElem.{RangeElem, rng_offset, rng_end_offset}
use cache_work.RangeVector.{at}
use cache_work.RangeVector.Trim.{first_hole, last_hole}
use cache_work.RangeVector.Sorted.{IsSorted, Covers}

-- Every byte of [beg, stop) lies in some element.
abbrev pub Full : List RangeElem → (beg stop : ℕ) → Type 0
Full xs beg stop = (p : ℕ) → beg ≤ p → p < stop → Covers xs p

module _ (xs : List RangeElem) (s : IsSorted xs) where
  -- The row of elements from `first` on: it ends at the last element, or before a hole.
  abbrev pub RowEnds : (first last : ℕ) → Option ℕ × ℕ → Type 0
  RowEnds first last (none, stop) =
      (stop ≡ rng_end_offset (at xs (last - 1))) × Full xs (rng_offset (at xs first)) stop
  RowEnds first last (some k, stop) =
      (first ≤ k)
      × (k + 1 < last)
      × (stop ≡ rng_end_offset (at xs k))
      × (stop < rng_offset (at xs (k + 1)))
      × Full xs (rng_offset (at xs first)) stop

  extend_row :
      (beg it : ℕ)
      → it < length xs
      → rng_offset (at xs it) ≤ rng_end_offset (at xs (it - 1))
      → Full xs beg (rng_end_offset (at xs (it - 1)))
      → Full xs beg (rng_end_offset (at xs it))
  extend_row beg it w h full p m n = elim (Bool-cases (ltb p (rng_end_offset (at xs (it - 1))))) [
    | inl t ↦ full p m (ground arith)
    | inr f ↦ (it, w, ground arith, n)
  ]

  pub first_hole-RowEnds :
      (first last rem it : ℕ)
      → first < it
      → it + rem ≡ last
      → last ≤ length xs
      → Full xs (rng_offset (at xs first)) (rng_end_offset (at xs (it - 1)))
      → RowEnds first last (first_hole xs rem it)
  unfolding first_hole
  first_hole-RowEnds first last zero it h e b full =
      let q : it - 1 ≡ last - 1 = omega arith in rw q (refl, rw q at full)
  first_hole-RowEnds first last (suc rem) it h e b full =
      elim (Bool-cases (ltb (rng_end_offset (at xs (it - 1))) (rng_offset (at xs it)))) [
        | inl t ↦
            let q : it - 1 + 1 ≡ it = omega arith in
            rw t (omega arith, omega arith, refl, rw q (ground arith), full)
        | inr f ↦
            let q : it + 1 - 1 ≡ it = omega arith in
            rw f (
              first_hole-RowEnds first last rem (it + 1) (omega arith) (omega arith) b
                (rw q (extend_row _ it (omega arith) (ground arith) full)))
      ]

  -- The row of elements that ends at `last`: where it begins.
  pub record RowBegins (first last b : ℕ) : Type 0 where
    pub pos : ℕ
    pub from : first ≤ pos
    pub below : pos < last
    pub begins : b ≡ rng_offset (at xs pos)
    pub hole_before : (pos ≡ first) ⊎ (rng_end_offset (at xs (pos - 1)) < b)
    pub full : Full xs b (rng_end_offset (at xs (last - 1)))

  -- What the loop knows of `prev_beg`.
  abbrev Prev : (last it prev_beg : ℕ) → Type 0
  Prev last it prev_beg =
      ((prev_beg ≡ rng_end_offset (at xs it)) × (it + 1 ≡ last))
      ⊎ ((prev_beg ≡ rng_offset (at xs (it + 1))) × (it + 1 < last))

  broken :
      (first last it prev : ℕ)
      → first ≤ it
      → Prev last it prev
      → rng_end_offset (at xs it) < prev
      → Full xs prev (rng_end_offset (at xs (last - 1)))
      → RowBegins first last prev
  broken first last it prev f (inl (e, l)) h full = absurd (omega arith)
  broken first last it prev f (inr (e, l)) h full =
      let q : it + 1 - 1 ≡ it = omega arith in
      record {
        pos = it + 1;
        from = omega arith;
        below = l;
        begins = e;
        hole_before = inr (rw q h);
        full = full;
      }

  extend_back :
      (last it prev : ℕ)
      → it < last
      → last ≤ length xs
      → prev ≤ rng_end_offset (at xs it)
      → Full xs prev (rng_end_offset (at xs (last - 1)))
      → Full xs (rng_offset (at xs it)) (rng_end_offset (at xs (last - 1)))
  extend_back last it prev w b h full p m n = elim (Bool-cases (ltb p prev)) [
    | inl t ↦ (it, omega arith, m, ground arith)
    | inr f ↦ full p (ground arith) n
  ]

  pub last_hole-RowBegins :
      (first last cnt it prev : ℕ)
      → first + cnt ≡ it
      → it < last
      → last ≤ length xs
      → Prev last it prev
      → Full xs prev (rng_end_offset (at xs (last - 1)))
      → RowBegins first last (last_hole xs cnt it prev)
  unfolding last_hole
  last_hole-RowBegins first last zero it prev e w b v full =
      elim (Bool-cases (ltb (rng_end_offset (at xs it)) prev)) [
        | inl t ↦ rw t (broken first last it prev (omega arith) v (ground arith) full)
        | inr f ↦ rw f (record {
          pos = it;
          from = omega arith;
          below = w;
          begins = refl;
          hole_before = inl (omega arith);
          full = extend_back last it prev w b (ground arith) full;
        })
      ]
  last_hole-RowBegins first last (suc cnt) it prev e w b v full =
      let q : it - 1 + 1 ≡ it = omega arith in
      elim (Bool-cases (ltb (rng_end_offset (at xs it)) prev)) [
        | inl t ↦ rw t (broken first last it prev (omega arith) v (ground arith) full)
        | inr f ↦ rw f (
            last_hole-RowBegins first last cnt (it - 1) (rng_offset (at xs it)) (omega arith)
              (omega arith) b (inr (rw q refl, rw q w))
              (extend_back last it prev w b (ground arith) full))
      ]
