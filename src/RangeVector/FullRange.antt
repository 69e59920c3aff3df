-- ===== src/RangeVector/FullRange.antt =====
-- find_full_range and find_exact_range against the set of bytes that the vector covers.
use cache_work.Prelude.{
  ℕ, zero, suc, ◌+◌, ◌-◌, ◌≤◌, ◌<◌, ◌^◌, ◌≡◌, ◌⊎◌, inl, inr, refl, List, Option, none, some, false,
  length, ltb, leb, ◌==◌, Bool-cases, ==_iff, arith,
}
use native.Mathlib.Nat.{le_refl}
use cache_work.Units.{u64, in_range, range_in_range}
use cache_work.Units.Rounding.{in_range_iff, range_in_range_iff}
use cache_work.Range.{Range}
use cache_work.RangeElem.{RangeElem, rng_offset, rng_end_offset}
use cache_work.RangeVector.{
  at, lower_bound, IterRange, no_elems, full_loop, full_start, upto, full_from, full_last,
  find_full_range,
}
use cache_work.RangeVector.Sorted.{
  IsSorted, Covers, lower_bound-le, lower_bound-before, lower_bound-at,
}

-- Some byte of [beg, stop) that no element holds.
abbrev pub Gap : List RangeElem → ℕ → ℕ → Type 0
Gap xs beg stop = (p : ℕ) × (beg ≤ p) × (p < stop) × ¬ Covers xs p

-- The elements at positions [first, last) hold every byte of [beg, stop).
abbrev pub Fills : List RangeElem → (first last beg stop : ℕ) → Type 0
Fills xs first last beg stop =
    (p : ℕ)
    → beg ≤ p
    → p < stop
    → (i : ℕ) × (first ≤ i)
      × (i < last)
      × (rng_offset (at xs i) ≤ p)
      × (p < rng_end_offset (at xs i))

module _ (xs : List RangeElem) (s : IsSorted xs) where
  -- A byte behind the elements before `it`, and before the start of the one at `it`.
  hole :
      (it p : ℕ)
      → ((i : ℕ) → i < it → rng_end_offset (at xs i) ≤ p)
      → (it < length xs → p < rng_offset (at xs it))
      → ¬ Covers xs p
  hole it p before after (i, b, l, h) =
      ground (arith, before i, after, s.ordered it i, s.nonempty it)

  -- What the loop finds: the last position of a gapless row of elements, or a byte of a gap.
  abbrev LoopResult : (stop it last_end : ℕ) → Option ℕ → Type 0
  LoopResult stop it last_end none = Gap xs last_end stop
  LoopResult stop it last_end (some j) =
      (it ≤ j)
      × (j < length xs)
      × (stop ≤ rng_end_offset (at xs j))
      × (rng_offset (at xs j) < stop)
      × Fills xs it (j + 1) last_end stop

  -- One more element in front of what the rest of the loop found.
  LoopResult-step :
      (stop it last_end : ℕ) (o : Option ℕ)
      → it < length xs
      → last_end ≡ rng_offset (at xs it)
      → LoopResult stop (it + 1) (rng_end_offset (at xs it)) o
      → LoopResult stop it last_end o
  LoopResult-step stop it last_end none b e (p, l, h, c) = (p, ground (arith, s.nonempty it), h, c)
  LoopResult-step stop it last_end (some j) b e (l, bound, reach, start, fill) =
      (omega arith, bound, reach, start, filled)
    where
      filled : Fills xs it (j + 1) last_end stop
      filled p m n = elim (Bool-cases (ltb p (rng_end_offset (at xs it)))) [
        | inl here ↦ (it, omega arith, omega arith, omega arith, ground arith)
        | inr there ↦
            let (i, from, below, l, h) = fill p (ground arith) n in (i, omega arith, below, l, h)
      ]

  full_loop-LoopResult :
      (stop rem it last_end : ℕ)
      → it + rem ≡ length xs
      → ((i : ℕ) → i < it → rng_end_offset (at xs i) ≤ last_end)
      → (it < length xs → last_end ≤ rng_offset (at xs it))
      → last_end < stop
      → LoopResult stop it last_end (full_loop xs stop rem it last_end)
  unfolding full_loop
  full_loop-LoopResult stop zero it last_end e before after h =
      (last_end, omega arith, h, hole it last_end before (λ b. absurd (omega arith)))
  full_loop-LoopResult stop (suc rem) it last_end e before after h =
      elim (Bool-cases (ltb last_end (rng_offset (at xs it)))) [
        | inl gap ↦ rw gap (last_end, omega arith, h, hole it last_end before (λ b. ground arith))
        | inr no_gap ↦ rw no_gap (elim (Bool-cases (leb stop (rng_end_offset (at xs it)))) [
          | inl done ↦ rw done (
            omega arith,
            omega arith,
            ground arith,
            ground arith,
            λ p m n. (it, omega arith, omega arith, ground arith, ground arith),
          )
          | inr more ↦ rw more (
              LoopResult-step stop it last_end _ (omega arith) (ground (arith, after)) (
                full_loop-LoopResult stop rem (it + 1) (rng_end_offset (at xs it)) (omega arith)
                  (λ i b. ground (arith, s.ordered i it, s.nonempty it))
                  (λ b. s.ordered it (it + 1) (omega arith) b) (ground arith)))
        ])
      ]

  module _ (rng : Range) (fits : rng.beg + rng.len < 2 ^ 64) (some_bytes : 0 < rng.len) where
    -- Either the result is the row of elements that hold the whole range, and nothing less would
    -- do, or it is empty and some byte of the range is not there.
    abbrev pub FullResult : IterRange → Type 0
    FullResult r =
        ((r ≡ no_elems xs) × Gap xs rng.beg (rng.beg + rng.len))
        ⊎ ((r.first < r.last)
            × (r.last ≤ length xs)
            × (rng_offset (at xs r.first) ≤ rng.beg)
            × (rng.beg < rng_end_offset (at xs r.first))
            × (rng_offset (at xs (r.last - 1)) < rng.beg + rng.len)
            × (rng.beg + rng.len ≤ rng_end_offset (at xs (r.last - 1)))
            × Fills xs r.first r.last rng.beg (rng.beg + rng.len))

    upto-FullResult :
        (it : ℕ) (o : Option ℕ)
        → it < length xs
        → rng_offset (at xs it) ≤ rng.beg
        → rng.beg < rng_end_offset (at xs it)
        → LoopResult (rng.beg + rng.len) it (rng_offset (at xs it)) o
        → FullResult (upto xs it o)
    upto-FullResult it none w l m (p, a, b, c) = elim (Bool-cases (ltb p rng.beg)) [
      | inl early ↦ absurd (c (it, w, a, ground arith))
      | inr late ↦ inl (refl, (p, ground arith, b, c))
    ]
    upto-FullResult it (some j) w l m (a, b, c, d, fill) =
        let back : j + 1 - 1 ≡ j = omega arith in
        inr (omega arith, omega arith, l, m, rw back d, rw back c, λ p n k. fill p (omega arith) k)

    full_from-FullResult :
        (it : ℕ)
        → it < length xs
        → (in_range rng.beg (rng_offset (at xs it)) (rng_end_offset (at xs it)) ≡ false
            → ¬ Covers xs rng.beg)
        → FullResult (full_from xs rng it)
    unfolding full_from
    full_from-FullResult it w missing =
        let stop : u64 (rng.beg + rng.len) ≡ rng.beg + rng.len = omega arith in
        elim (Bool-cases (in_range rng.beg (rng_offset (at xs it)) (rng_end_offset (at xs it)))) [
          | inl t ↦
              let (l, h) = (in_range_iff _ _ _).0 t in
              rw (t, stop)
                (upto-FullResult it _ w l h (
                  full_loop-LoopResult (rng.beg + rng.len) (length xs - it) it
                    (rng_offset (at xs it)) (omega arith) (λ i b. s.ordered i it b w)
                    (λ b. le_refl _) (omega arith)))
          | inr f ↦ rw f (inl (refl, (rng.beg, le_refl _, omega arith, missing f)))
        ]

    abbrev back : ℕ
    back = length xs - 1

    -- Behind the last element nothing is covered.
    behind : (p : ℕ) → rng_end_offset (at xs back) ≤ p ⊎ (length xs ≡ 0) → ¬ Covers xs p
    behind p h =
        hole (length xs) p (λ i b. ground (arith, s.ordered i back, s.nonempty i, s.nonempty back))
          (λ b. absurd (omega arith))

    last-Gap :
        back < length xs
        → range_in_range rng.beg
            (rng.beg + rng.len)
            (rng_offset (at xs back))
            (rng_end_offset (at xs back))
          ≡ false
        → lower_bound rng.beg xs ≡ length xs
        → Gap xs rng.beg (rng.beg + rng.len)
    unfolding range_in_range
    last-Gap w outside e = elim (Bool-cases (ltb (rng_end_offset (at xs back)) rng.beg)) [
      | inl before ↦ (rng.beg, le_refl _, omega arith, behind _ (inl (ground arith)))
      | inr after ↦ (
        rng_end_offset (at xs back),
        ground arith,
        ground (arith, lower_bound-before rng.beg xs back),
        behind _ (inl (le_refl _)),
      )
    ]

    full_last-FullResult : lower_bound rng.beg xs ≡ length xs → FullResult (full_last xs rng)
    unfolding full_last
    full_last-FullResult e = elim (Bool-cases (ltb 0 (length xs))) [
      | inr f ↦ rw f (inl (refl, (rng.beg, le_refl _, omega arith, behind _ (inr (ground arith)))))
      | inl t ↦
          let w : back < length xs = ground arith in
          let stop : u64 (rng.beg + rng.len) ≡ rng.beg + rng.len = omega arith in
          rw (t, stop)
            (elim (Bool-cases (
              range_in_range rng.beg (rng.beg + rng.len) (rng_offset (at xs back))
                (rng_end_offset (at xs back)))) [
                  | inl inside ↦
                      let (l, h) =
                        (range_in_range_iff rng.beg (rng.beg + rng.len) (rng_offset (at xs back))
                            (rng_end_offset (at xs back))).0
                          inside in
                      rw inside (
                        inr (
                          w,
                          le_refl _,
                          l,
                          omega arith,
                          omega arith,
                          h,
                          λ p m n. (back, le_refl _, w, omega arith, omega arith),
                        ))
                  | inr outside ↦ rw outside (inl (refl, last-Gap w outside e))
                ])
    ]

    full_start-lt : lower_bound rng.beg xs < length xs → full_start xs rng < length xs
    unfolding full_start
    full_start-lt h = ground arith

    full_start-missing :
        lower_bound rng.beg xs < length xs
        → in_range rng.beg
            (rng_offset (at xs (full_start xs rng)))
            (rng_end_offset (at xs (full_start xs rng)))
          ≡ false
        → ¬ Covers xs rng.beg
    unfolding full_start in_range
    full_start-missing h f =
        hole (lower_bound rng.beg xs) rng.beg
          (λ i b. ground (
            arith,
            lower_bound-before rng.beg xs i b,
            lower_bound-at rng.beg xs h,
            s.ordered i (lower_bound rng.beg xs - 1),
            s.ordered i (lower_bound rng.beg xs),
            s.nonempty i,
            s.nonempty (lower_bound rng.beg xs),
            s.nonempty (lower_bound rng.beg xs - 1),
            lower_bound-before rng.beg xs (lower_bound rng.beg xs - 1),
          ))
          (λ b. ground (arith, lower_bound-at rng.beg xs h, s.nonempty (lower_bound rng.beg xs)))

    -- On a sorted vector and a non-empty range whose end does not wrap, find_full_range yields
    -- the gapless row of elements that holds the range, or no elements, and then some byte of
    -- the range is not covered.
    pub find_full_range-FullResult : FullResult (find_full_range xs rng)
    unfolding find_full_range
    find_full_range-FullResult = elim (Bool-cases (lower_bound rng.beg xs == length xs)) [
      | inl t ↦ rw t (full_last-FullResult ((==_iff _ _).0 t))
      | inr f ↦
          let h : lower_bound rng.beg xs < length xs = ground (arith, lower_bound-le rng.beg xs) in
          rw f (full_from-FullResult _ (full_start-lt h) (full_start-missing h))
    ]
