-- ===== src/RangeVector/Trimming.antt =====
-- trim_overlaps against the set of bytes that the vector covers: it never aborts, takes away only
-- bytes that are covered, and leaves a range whose first and last bytes are not.
pub mod Holes
use native.Mathlib.Nat.{le_refl}
use cache_work.Prelude.{
  ℕ, zero, suc, ◌+◌, ◌-◌, ◌≤◌, ◌<◌, ◌^◌, ◌≡◌, ◌≢◌, ◌⊎◌, inl, inr, refl, sym, List, true, false,
  length, ltb, leb, ◌==◌, ◌&&◌, Bool-cases, ==_iff, arith, if◌then◌else◌, Option, none, some, ◌>>=◌,
}
use cache_work.Units.{in_range, min_obj_size, max_obj_size, sub64, u64}
use cache_work.Range.{Range, empty_range, end_of, object_range, is_valid}
use cache_work.Range.Valid.{is_valid_iff}
use cache_work.RangeElem.{RangeElem, rng_offset, rng_end_offset}
use cache_work.RangeVector.{at, IterRange, find_in_range}
use cache_work.RangeVector.Trim.{
  trim_front, trim_back, trimmed, trim_some, trim_overlaps, first_hole, last_hole,
}
use cache_work.RangeVector.Sorted.{IsSorted, Covers}
use cache_work.RangeVector.InRange.{Overlapping, find_in_range-Overlapping}
use cache_work.RangeVector.Trimming.Holes.{
  Full, RowEnds, first_hole-RowEnds, RowBegins, last_hole-RowBegins,
}

-- The range [b, e) that is left of [beg, stop): what is cut off at both ends is covered, and either
-- the rest is too short for an object, and the result is empty, or its ends are not covered.
pub record TrimResult (xs : List RangeElem) (beg stop : ℕ) (r : Range) : Type 0 where
  pub b : ℕ
  pub e : ℕ
  pub front : beg ≤ b
  pub back : e ≤ stop
  pub front_full : Full xs beg b
  pub back_full : Full xs e stop
  pub result :
      ((r.beg ≡ b)
        × (r.beg + r.len ≡ e)
        × (min_obj_size ≤ r.len)
        × (¬ Covers xs b)
        × (¬ Covers xs (e - 1)))
      ⊎ ((r ≡ empty_range) × (e < b + min_obj_size))

module _ (xs : List RangeElem) (s : IsSorted xs) where
  ends_mono :
      (i j : ℕ) → i ≤ j → j < length xs → rng_end_offset (at xs i) ≤ rng_end_offset (at xs j)
  ends_mono i j h b = elim (Bool-cases (i == j)) [
    | inl same ↦ rw ((==_iff i j).0 same) (le_refl _)
    | inr other ↦ ground (arith, s.ordered i j, s.nonempty j)
  ]

  module _ (beg stop first last : ℕ) (r : beg < stop) (l : first < last) (w : last ≤ length xs)
      (only : (i : ℕ)
        → i < length xs
        → rng_offset (at xs i) < stop
        → beg < rng_end_offset (at xs i)
        → (first ≤ i) × (i < last))
      (all : (i : ℕ)
        → first ≤ i
        → i < last
        → (rng_offset (at xs i) < stop) × (beg < rng_end_offset (at xs i))) where
    -- What trim_front leaves.
    abbrev Front : Option ℕ × ℕ → Type 0
    Front (none, b) =
        (beg ≤ b)
        × (b ≤ stop)
        × Full xs beg b
        × (b < stop → ¬ Covers xs b)
        × (b < stop → ¬ Covers xs (stop - 1))
    Front (some k, b) =
        (beg ≤ b)
        × (b ≤ stop)
        × Full xs beg b
        × (b < stop → ¬ Covers xs b)
        × (first ≤ k)
        × (k < last)
        × ((rng_offset (at xs k) ≤ b) ⊎ ((b ≡ beg) × (k ≡ first)))

    row_end_free :
        (k e i : ℕ)
        → first ≤ k
        → k + 1 < last
        → e ≡ rng_end_offset (at xs k)
        → e < rng_offset (at xs (k + 1))
        → i < length xs
        → rng_offset (at xs i) ≤ e
        → e < rng_end_offset (at xs i)
        → ⊥
    row_end_free k e i f b q hole c d g = elim (Bool-cases (leb i k)) [
      | inl t ↦ ground (arith, ends_mono i k)
      | inr n ↦ ground (arith, s.ordered (k + 1) i, s.nonempty (k + 1), (==_iff (k + 1) i).0)
    ]

    row_Front :
        rng_offset (at xs first) ≤ beg
        → (o : Option ℕ × ℕ) → RowEnds xs s first last o
        → Front (o.0, (if ltb o.1 stop then o.1 else stop))
    row_Front h (none, e) (q, full) =
        let past : beg < e = ground (arith, all (last - 1)) in
        elim (Bool-cases (ltb e stop)) [
          | inl t ↦ rw t (
            omega arith,
            ground arith,
            (λ p m n. full p (omega arith) n),
            (λ a (i, c, d, g). ground (arith, only i c, ends_mono i (last - 1))),
            (λ a (i, c, d, g). ground (arith, only i c, ends_mono i (last - 1))),
          )
          | inr f ↦ rw f (
            omega arith,
            le_refl _,
            (λ p m n. full p (omega arith) (ground arith)),
            (λ a. absurd (omega arith)),
            (λ a. absurd (omega arith)),
          )
        ]
    row_Front h (some k, e) (f, b, q, hole, full) =
        let past : (beg < e) × (rng_offset (at xs (k + 1)) < stop) =
          ground (arith, all k, all (k + 1)) in
        let t : ltb e stop ≡ true = ground arith in
        rw t (
          omega arith,
          omega arith,
          (λ p m n. full p (omega arith) n),
          (λ a (i, c, d, g). row_end_free k e i f b q hole c d g),
          f,
          omega arith,
          inl (ground (arith, s.nonempty k)),
        )

    -- What trim_back leaves of [b, stop), where enough bytes are left to look at.
    abbrev Back : (b : ℕ) → ℕ → Type 0
    Back b e =
        (e ≤ stop) × (b ≤ e) × Full xs e stop × (min_obj_size ≤ stop - b → ¬ Covers xs (e - 1))

    row_start_free :
        (k b e i : ℕ)
        → (rng_offset (at xs k) ≤ b) ⊎ ((b ≡ beg) × (k ≡ first))
        → first ≤ k
        → b < e
        → RowBegins xs s k last e
        → i < length xs
        → rng_offset (at xs i) ≤ e - 1
        → e - 1 < rng_end_offset (at xs i)
        → ⊥
    row_start_free k b e i from f above row c d g = elim (Bool-cases (ltb i row.pos)) [
      | inl t ↦ ground (
        arith,
        all row.pos,
        only i c,
        ends_mono i (row.pos - 1),
        row.begins,
        row.from,
        row.below,
        row.hole_before,
      )
      | inr n ↦ ground (
        arith,
        ends_mono row.pos i,
        s.ordered row.pos i,
        s.nonempty row.pos,
        row.begins,
        row.below,
        (==_iff row.pos i).0,
      )
    ]

    row_Back :
        (k b e : ℕ)
        → beg ≤ b
        → b < stop
        → ¬ Covers xs b
        → (rng_offset (at xs k) ≤ b) ⊎ ((b ≡ beg) × (k ≡ first))
        → first ≤ k
        → stop ≤ rng_end_offset (at xs (last - 1))
        → RowBegins xs s k last e
        → (in_range e b stop ≡ true) × Back b e
    unfolding in_range
    row_Back k b e h m free from f reach row =
        let below : e < stop = ground (arith, all row.pos, row.begins, row.from, row.below) in
        let above : b < e = elim (Bool-cases (ltb b e)) [
          | inl t ↦ ground arith
          | inr n ↦ absurd (free (row.full b (ground arith) (omega arith)))
        ] in
        (
          ground arith,
          (
            omega arith,
            omega arith,
            (λ p g n. row.full p g (omega arith)),
            (λ a (i, c, d, g). row_start_free k b e i from f above row c d g),
          ),
        )

    last_row :
        (k : ℕ)
        → k < last
        → RowBegins xs s k last
            (last_hole xs (last - 1 - k) (last - 1) (rng_end_offset (at xs (last - 1))))
    last_row k b =
        last_hole-RowBegins xs s k last (last - 1 - k) (last - 1) _ (omega arith) (omega arith) w
          (inl (refl, omega arith)) (λ p m n. absurd (omega arith))

    short_Back :
        (b : ℕ) → b ≤ stop → (min_obj_size ≤ stop - b → ¬ Covers xs (stop - 1)) → Back b stop
    short_Back b h free = (le_refl _, h, (λ p m n. absurd (omega arith)), free)

    trim_back-Back :
        stop < 2 ^ 64
        → (o : Option ℕ) (b : ℕ) → Front (o, b)
        → (e : ℕ) × (trim_back xs stop last b o ≡ some e) × Back b e
    unfolding trim_back
    trim_back-Back fits none b (m, h, full, free, end_free) =
        (stop, refl, short_Back b h (λ a. end_free (omega arith)))
    trim_back-Back fits (some k) b (m, h, full, free, f, below, from) =
        elim (Bool-cases
          (leb min_obj_size (sub64 stop b) && leb stop (rng_end_offset (at xs (last - 1))))) [
            | inl t ↦
                let room : (b < stop) × (stop ≤ rng_end_offset (at xs (last - 1))) = ground arith in
                let res = row_Back k b _ m room.0 (free room.0) from f room.1 (last_row k below) in
                rw (t, res.0) (_, refl, res.1)
            | inr n ↦ rw n (
              stop,
              refl,
              short_Back b h (λ a (i, c, d, g). ground (arith, only i c, ends_mono i (last - 1))),
            )
          ]

    trim_front-Front :
        (rng : Range)
        → rng.beg ≡ beg
        → end_of rng ≡ stop
        → Front (trim_front xs rng (record { first = first; last = last }))
    unfolding trim_front
    trim_front-Front rng q qe = elim (Bool-cases (leb (rng_offset (at xs first)) beg)) [
      | inl t ↦
          let same : first + 1 - 1 ≡ first = omega arith in
          rw (qe, q, t)
            (row_Front (ground arith) _ (
              first_hole-RowEnds xs s first last (last - (first + 1)) (first + 1) (omega arith)
                (omega arith) w (rw same λ p m n. (first, omega arith, m, n))))
      | inr n ↦
          rw (q, n)
            (
              le_refl _,
              omega arith,
              (λ p m g. absurd (omega arith)),
              (λ a (i, c, d, g).
                  ground
                    (arith, only i c, s.ordered first i, s.nonempty first, (==_iff first i).0)),
              le_refl _,
              l,
              inr (refl, refl),
            )
    ]

    trimmed-TrimResult :
        stop ≤ max_obj_size
        → (b e : ℕ) → beg ≤ b
        → Full xs beg b
        → (b < stop → ¬ Covers xs b)
        → Back b e
        → (r' : Range) × (trimmed b e ≡ some r') × TrimResult xs beg stop r'
    unfolding trimmed object_range
    trimmed-TrimResult fits b e m full free (h, le, full_e, free_e) =
        let q : b < 2 ^ 40 → e < 2 ^ 40 → sub64 e b ≡ e - b = λ x y. omega arith in
        rw (q (omega arith) (omega arith)) (elim (Bool-cases (leb min_obj_size (e - b))) [
          | inl t ↦
              let ok : is_valid b (e - b) ≡ true =
                (is_valid_iff b (e - b) (omega arith)).1 (ground arith, omega arith) in
              rw (t, ok)
                (
                  _,
                  refl,
                  record {
                    b = b;
                    e = e;
                    front = m;
                    back = h;
                    front_full = full;
                    back_full = full_e;
                    result = inl (
                      refl,
                      omega arith,
                      ground arith,
                      free (ground arith),
                      free_e (ground arith),
                    );
                  },
                )
          | inr n ↦ rw n (
            _,
            refl,
            record {
              b = b;
              e = e;
              front = m;
              back = h;
              front_full = full;
              back_full = full_e;
              result = inr (refl, ground arith);
            },
          )
        ])

    Front-Full :
        (o : Option ℕ) (b : ℕ)
        → Front (o, b)
        → (beg ≤ b) × Full xs beg b × (b < stop → ¬ Covers xs b)
    Front-Full none b (m, h, full, free, end_free) = (m, full, free)
    Front-Full (some k) b (m, h, full, free, f, below, from) = (m, full, free)

    trim_some-TrimResult :
        (rng : Range)
        → rng.beg ≡ beg
        → end_of rng ≡ stop
        → stop ≤ max_obj_size
        → (r' : Range) × (trim_some xs rng (record { first = first; last = last }) ≡ some r')
          × TrimResult xs beg stop r'
    unfolding trim_some
    trim_some-TrimResult rng q qe fits =
        let fr = trim_front xs rng (record { first = first; last = last }) in
        let f = trim_front-Front rng q qe in
        let g = Front-Full fr.0 fr.1 f in
        let (e, eq, back) = trim_back-Back (omega arith) fr.0 fr.1 f in
        rw (qe, eq) (trimmed-TrimResult fits fr.1 e g.0 g.1 g.2 back)

  module _ (rng : Range) (room : min_obj_size ≤ rng.len)
      (fits : rng.beg + rng.len ≤ max_obj_size) where
    untouched :
        ¬ Covers xs rng.beg
        → ¬ Covers xs (rng.beg + rng.len - 1)
        → TrimResult xs rng.beg (rng.beg + rng.len) rng
    untouched free end_free = record {
      b = rng.beg;
      e = rng.beg + rng.len;
      front = le_refl _;
      back = le_refl _;
      front_full = λ p m n. absurd (omega arith);
      back_full = λ p m n. absurd (omega arith);
      result = inl (refl, refl, room, free, end_free);
    }

    -- On a sorted vector and an object range inside the limits, trim_overlaps does not abort; it
    -- cuts off only covered bytes at both ends, and leaves a range whose first and last bytes
    -- are not covered, or the empty range where too little is left.
    pub trim_overlaps-TrimResult :
        (r : Range) × (trim_overlaps xs rng ≡ some r) × TrimResult xs rng.beg (rng.beg + rng.len) r
    unfolding trim_overlaps end_of
    trim_overlaps-TrimResult =
        let (fl, w, over) = find_in_range-Overlapping xs s rng (omega arith) (omega arith) in
        let rs : IterRange = find_in_range xs rng in
        let a : ℕ = rs.first in
        let z : ℕ = rs.last in
        let exact : u64 (rng.beg + rng.len) ≡ rng.beg + rng.len = omega arith in
        elim (Bool-cases (a == z)) [
          | inl t ↦
              let same : a ≡ z = (==_iff a z).0 t in
              rw t (
                rng,
                refl,
                untouched (λ (i, c, d, g). ground (arith, (over i c).1))
                    (λ (i, c, d, g). ground (arith, (over i c).1)),
              )
          | inr n ↦
              let some_elems : a < z = ground arith in
              rw n
                (elim (Bool-cases (
                  ltb rng.beg (rng_offset (at xs a))
                  && ltb (rng_end_offset (at xs (z - 1))) (u64 (rng.beg + rng.len)))) [
                    | inl t ↦ rw t (
                      rng,
                      refl,
                      untouched
                          (λ (i, c, d, g).
                            ground
                              (arith, (over i c).1, s.ordered a i, s.nonempty a, (==_iff a i).0))
                          (λ (i, c, d, g). ground (arith, (over i c).1, ends_mono i (z - 1))),
                    )
                    | inr f ↦ rw f (
                        trim_some-TrimResult rng.beg (rng.beg + rng.len) a z (omega arith)
                          some_elems w (λ i b c d. (over i b).1 (c, d))
                          (λ i b c. (over i (omega arith)).0 (b, c)) rng refl exact fits)
                  ])
        ]
