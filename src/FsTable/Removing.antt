-- ===== src/FsTable/Removing.antt =====
-- rem_entries, for a caller that removes fragments and tells their size: the counters stay true, and
-- a key whose last fragment goes is dropped.
use cache_work.Prelude.{
  ℕ, ◌+◌, ◌-◌, ◌^◌, ◌≤◌, ◌<◌, ◌≡◌, ◌≢◌, ◌⊎◌, inl, inr, refl, false, ◌==◌, ltb, Bool-cases, Option,
  none, some, Option-cases, arith,
}
use cache_work.RangeVector.{RangeVector, size}
use cache_work.RangeVector.Sorted.{IsValid}
use cache_work.FsTable.{FsTable, calc_dec_cnt_ranges, on_dec_entries, find, rem_found, rem_entries}
use cache_work.FsTable.Nodes.{
  find-IsValid, find-put_same, find-put_other, find-erase_same, find-erase_other, total-find,
}
use cache_work.FsTable.Data.{bytes}
use cache_work.FsTable.Counters.{
  on_heap, IsCounted, dec_on_heap, nothing_on_heap, IsValid-size, IsCounted-put, IsCounted-erase,
}

-- What rem_entries asks of its caller: the vector stays valid, and the answer is the size of what
-- was removed.
pub record IsRemover (rem : RangeVector → RangeVector × ℕ) : Type 0 where
  pub valid : (v : RangeVector) → IsValid v → IsValid (rem v).0
  pub fewer : (v : RangeVector) → IsValid v → size (rem v).0 ≤ size v
  pub told : (v : RangeVector) → IsValid v → bytes (rem v).0 + (rem v).1 ≡ bytes v
  pub small : (v : RangeVector) → IsValid v → (rem v).1 < 2 ^ 64

-- The outcome of rem_entries.
pub record RemOutcome (key : ℕ) (rem : RangeVector → RangeVector × ℕ) (t : FsTable) (r : Option ℕ)
    (t' : FsTable) : Type 0 where
  pub counted : IsCounted t'
  pub others : (k : ℕ) → k ≢ key → find k t'.fs_nodes ≡ find k t.fs_nodes
  pub answer :
      ((find key t.fs_nodes ≡ none) × (r ≡ none) × (t' ≡ t))
      ⊎ ((v : RangeVector) × (find key t.fs_nodes ≡ some v)
          × (r ≡ some (size v - size (rem v).0))
          × (((size (rem v).0 ≡ 0) × (find key t'.fs_nodes ≡ none))
              ⊎ ((0 < size (rem v).0) × (find key t'.fs_nodes ≡ some (rem v).0))))

module _ (key : ℕ) (rem : RangeVector → RangeVector × ℕ) (is_rem : IsRemover rem) (t : FsTable)
    (c : IsCounted t) where
  rem_found-RemOutcome :
      (v : RangeVector)
      → find key t.fs_nodes ≡ some v
      → (r : Option ℕ) × (t' : FsTable) × (rem_found key rem t v ≡ some (r, t'))
        × RemOutcome key rem t r t'
  unfolding rem_found on_dec_entries
  rem_found-RemOutcome v f =
      let valid = find-IsValid key t.fs_nodes v c.kept f in
      let w : RangeVector = (rem v).0 in
      let max = IsValid-size v valid.0 in
      let fewer = is_rem.fewer v valid.0 in
      let dec = dec_on_heap v w fewer max in
      let most = total-find on_heap key v t.fs_nodes f in
      let enough : ltb t.cnt_ranges (calc_dec_cnt_ranges (size v) (size v - size w)) ≡ false =
        ground (arith, dec, most, c.ranges) in
      let told = is_rem.told v valid.0 in
      let small = is_rem.small v valid.0 in
      rw enough (elim (Bool-cases (size v - size w == size v)) [
        | inl all ↦
            let gone : size w ≡ 0 = ground (arith, valid.1) in
            let empty = nothing_on_heap w gone in
            rw all (
              _,
              _,
              refl,
              record {
                counted =
                    IsCounted-erase key v t _ c f refl refl
                      (omega (arith, dec, most, c.ranges, empty.0))
                      (λ m h. omega (arith, c.entries, gone, max))
                      (λ m h. omega (arith, c.data_bytes, told, small, empty.1));
                others = λ k n. find-erase_other key k t.fs_nodes n;
                answer = inr (v, f, refl, inl (gone, find-erase_same key t.fs_nodes c.kept));
              },
            )
        | inr some_left ↦ rw some_left (
          _,
          _,
          refl,
          record {
            counted =
                IsCounted-put key v w t _ c f (is_rem.valid v valid.0) (ground arith) refl refl
                  (omega (arith, dec, most, c.ranges)) (λ m h. omega (arith, c.entries, fewer, max))
                  (λ m h. omega (arith, c.data_bytes, told, small)) (omega (arith, c.within));
            others = λ k n. find-put_other key k w t.fs_nodes n;
            answer = inr (v, f, refl, inr (ground arith, find-put_same key w v t.fs_nodes f));
          },
        )
      ])

  -- On a table with true counters, for a remover that keeps vectors valid and tells the size of
  -- what it removed, rem_entries does not abort; the counters stay true, other keys stay, and a
  -- key without fragments is dropped.
  pub rem_entries-RemOutcome :
      (r : Option ℕ) × (t' : FsTable) × (rem_entries key rem t ≡ some (r, t'))
      × RemOutcome key rem t r t'
  unfolding rem_entries
  rem_entries-RemOutcome = elim (Option-cases (find key t.fs_nodes)) [
    | inl n ↦
        rw n (
          none,
          t,
          refl,
          record { counted = c; others = λ k m. refl; answer = inl (n, refl, refl) },
        )
    | inr (v, f) ↦ rw f (rem_found-RemOutcome v f)
  ]
