-- ===== src/RangeVector/InRange.antt =====
-- find_in_range against the set of elements that overlap the range.
use native.Mathlib.Nat.{le_refl}
use cache_work.Prelude.{
  ℕ, zero, suc, ◌+◌, ◌-◌, ◌≤◌, ◌<◌, ◌^◌, ◌≡◌, ◌⊎◌, ◌↔◌, inl, inr, List, length, ltb, ◌==◌, ◌&&◌,
  Bool-cases, ==_iff, arith,
}
use cache_work.Units.{u64, in_range, ranges_overlap}
use cache_work.Units.Rounding.{ranges_overlap_pos, ranges_overlap_zero}
use cache_work.Range.{Range}
use cache_work.RangeElem.{RangeElem, rng_offset, rng_end_offset}
use cache_work.RangeVector.{
  at, lower_bound, IterRange, no_elems, in_loop, in_last, in_start, in_from, in_tail, find_in_range,
}
use cache_work.RangeVector.Sorted.{IsSorted, lower_bound-le, lower_bound-before, lower_bound-at}

-- The positions of `r` are those of the elements that share a byte with [beg, stop).
abbrev pub Overlapping : List RangeElem → (beg stop : ℕ) → IterRange → Type 0
Overlapping xs beg stop r =
    (r.first ≤ r.last)
    × (r.last ≤ length xs)
    × ((i : ℕ)
        → i < length xs
        → ((r.first ≤ i) × (i < r.last))
          ↔ ((rng_offset (at xs i) < stop) × (beg < rng_end_offset (at xs i))))

in_loop-bounds :
    (xs : List RangeElem) (stop rem it : ℕ)
    → it + rem ≡ length xs
    → (it ≤ in_loop xs stop rem it)
      × (in_loop xs stop rem it ≤ length xs)
      × (in_loop xs stop rem it < length xs
          → stop ≤ rng_end_offset (at xs (in_loop xs stop rem it)))
unfolding in_loop
in_loop-bounds xs stop zero it e = (le_refl _, omega arith, λ h. absurd (omega arith))
in_loop-bounds xs stop (suc rem) it e = ground (arith, in_loop-bounds xs stop rem (it + 1))

in_loop-before :
    (xs : List RangeElem) (stop rem it i : ℕ)
    → it + rem ≡ length xs
    → it ≤ i
    → i < in_loop xs stop rem it
    → rng_end_offset (at xs i) < stop
unfolding in_loop
in_loop-before xs stop zero it i e h k = absurd (omega arith)
in_loop-before xs stop (suc rem) it i e h k = elim (Bool-cases (it == i)) [
  | inl same ↦ ground arith
  | inr other ↦ ground (arith, in_loop-before xs stop rem (it + 1) i)
]

module _ (xs : List RangeElem) (s : IsSorted xs) where
  module _ (beg stop it : ℕ) (h : beg < stop) (w : it < length xs) where
    abbrev found : ℕ
    found = in_loop xs stop (length xs - it) it

    abbrev last : ℕ
    last = in_last xs stop found

    last_bounds : rng_offset (at xs it) < stop → (it < last) × (last ≤ length xs)
    unfolding in_last
    last_bounds o = ground (arith, in_loop-bounds xs stop (length xs - it) it)

    last_inside :
        (i : ℕ) → rng_offset (at xs it) < stop → it ≤ i → i < last → rng_offset (at xs i) < stop
    unfolding in_last
    last_inside i o b l = ground (
      arith,
      in_loop-bounds xs stop (length xs - it) it,
      in_loop-before xs stop (length xs - it) it i,
      s.nonempty i,
    )

    last_outside :
        (i : ℕ)
        → rng_offset (at xs it) < stop
        → last ≤ i
        → i < length xs
        → stop ≤ rng_offset (at xs i)
    unfolding in_last
    last_outside i o l b =
        ground
          (arith, in_loop-bounds xs stop (length xs - it) it, s.ordered found i, s.nonempty found)

  module _ (rng : Range) (fits : rng.beg + rng.len < 2 ^ 64) (some_bytes : 0 < rng.len) where
    abbrev stop_at : ℕ
    stop_at = rng.beg + rng.len

    none_overlaps :
        ((i : ℕ)
          → i < length xs
          → (stop_at ≤ rng_offset (at xs i)) ⊎ (rng_end_offset (at xs i) ≤ rng.beg))
        → Overlapping xs rng.beg stop_at (no_elems xs)
    none_overlaps apart = (
      le_refl _,
      le_refl _,
      λ i b. ((λ p. absurd (omega arith)), (λ p. absurd (ground (arith, apart i b)))),
    )

    in_from-Overlapping :
        (it : ℕ)
        → it < length xs
        → ((i : ℕ) → i < it → rng_end_offset (at xs i) ≤ rng.beg)
        → (rng_end_offset (at xs it) ≤ rng.beg ⊎ (stop_at ≤ rng_offset (at xs it))
            → stop_at ≤ rng_offset (at xs it))
        → Overlapping xs rng.beg stop_at (in_from xs rng it)
    unfolding in_from
    in_from-Overlapping it w before apart =
        let exact : u64 (rng.beg + rng.len) ≡ rng.beg + rng.len = omega arith in
        rw exact
          (elim (Bool-cases (
            ranges_overlap rng.beg stop_at (rng_offset (at xs it)) (rng_end_offset (at xs it))
            == 0)) [
              | inl t ↦
                  let far : stop_at ≤ rng_offset (at xs it) = ground (
                    arith,
                    apart,
                    s.nonempty it w,
                    ranges_overlap_zero rng.beg stop_at (rng_offset (at xs it))
                        (rng_end_offset (at xs it)),
                  ) in
                  rw t
                    (none_overlaps λ i b. ground (arith, before i, s.ordered it i, s.nonempty it))
              | inr f ↦
                  let o : (rng.beg < rng_end_offset (at xs it))
                      × (rng_offset (at xs it) < stop_at) =
                    ground (
                      arith,
                      ranges_overlap_pos rng.beg stop_at (rng_offset (at xs it))
                          (rng_end_offset (at xs it)),
                    ) in
                  rw f (
                    ground (arith, last_bounds rng.beg stop_at it (omega arith) w o.1),
                    (last_bounds rng.beg stop_at it (omega arith) w o.1).1,
                    λ i b. (
                      (λ p. (
                        last_inside rng.beg stop_at it (omega arith) w i o.1 p.0 p.1,
                        ground (arith, s.ordered it i, s.nonempty i),
                      )),
                      (λ p. (
                        ground (arith, before i),
                        ground (arith, last_outside rng.beg stop_at it (omega arith) w i o.1),
                      )),
                    ),
                  )
            ])

    in_start-before :
        lower_bound rng.beg xs < length xs
        → (i : ℕ) → i < in_start xs rng
        → rng_end_offset (at xs i) ≤ rng.beg
    unfolding in_start
    in_start-before h i b =
        let l : ℕ = lower_bound rng.beg xs in
        ground (
          arith,
          lower_bound-before rng.beg xs i,
          lower_bound-at rng.beg xs h,
          lower_bound-before rng.beg xs (l - 1),
          s.ordered i (l - 1),
          s.ordered i l,
          s.nonempty i,
        )

    in_start-apart :
        lower_bound rng.beg xs < length xs
        → (rng_end_offset (at xs (in_start xs rng)) ≤ rng.beg)
          ⊎ (stop_at ≤ rng_offset (at xs (in_start xs rng)))
        → stop_at ≤ rng_offset (at xs (in_start xs rng))
    unfolding in_start
    in_start-apart h apart =
        let l : ℕ = lower_bound rng.beg xs in
        ground
          (arith, lower_bound-at rng.beg xs h, lower_bound-before rng.beg xs (l - 1), s.nonempty l)

    in_start-lt : lower_bound rng.beg xs < length xs → in_start xs rng < length xs
    unfolding in_start
    in_start-lt h = ground arith

    in_tail-Overlapping :
        lower_bound rng.beg xs ≡ length xs → Overlapping xs rng.beg stop_at (in_tail xs rng)
    unfolding in_tail in_range
    in_tail-Overlapping e =
        let l : ℕ = length xs - 1 in
        elim (Bool-cases (
          ltb 0 (length xs)
          && in_range rng.beg (rng_offset (at xs l)) (rng_end_offset (at xs l)))) [
            | inl t ↦ rw t (
              omega arith,
              le_refl _,
              λ i b. (
                (λ p. ground (arith, lower_bound-before rng.beg xs i)),
                (λ p. ground (arith, s.ordered i l)),
              ),
            )
            | inr f ↦ rw f (
                none_overlaps λ i b. inr (
                  ground (
                    arith,
                    lower_bound-before rng.beg xs i,
                    lower_bound-before rng.beg xs l,
                    s.ordered i l,
                    s.nonempty l,
                  )))
          ]

    -- On a sorted vector and a non-empty range whose end does not wrap, find_in_range yields
    -- exactly the elements that share a byte with the range.
    pub find_in_range-Overlapping : Overlapping xs rng.beg stop_at (find_in_range xs rng)
    unfolding find_in_range
    find_in_range-Overlapping = elim (Bool-cases (lower_bound rng.beg xs == length xs)) [
      | inl t ↦ rw t (in_tail-Overlapping ((==_iff _ _).0 t))
      | inr f ↦
          let h : lower_bound rng.beg xs < length xs = ground (arith, lower_bound-le rng.beg xs) in
          rw f (in_from-Overlapping _ (in_start-lt h) (in_start-before h) (in_start-apart h))
    ]
