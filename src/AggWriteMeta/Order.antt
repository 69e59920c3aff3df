-- ===== src/AggWriteMeta/Order.antt =====
-- add_entry of agg_write_meta against the order of the entries: by key, and without a shared byte.

use cache_work.Prelude.{
  ℕ, zero, suc, ◌-◌, ◌≤◌, ◌<◌, ◌≡◌, ◌⊎◌, inl, inr, refl, ap, ◌∙◌, true, false, ◌&&◌, ◌||◌, not, ltb,
  ◌==◌, Bool-cases, ==_iff, if◌then◌else◌, List, [], ◌∷◌, length, insert_at, length-insert_at,
  get_or-insert_at_before, get_or-insert_at_self, get_or-insert_at_after, arith,
}
use cache_work.Units.Rounding.{ranges_overlap_pos}
use cache_work.Units.{ranges_overlap}
use cache_work.RangeElem.{RangeElem, rng_offset, rng_end_offset}
use cache_work.AggWriteMeta.{
  AggMetaEntry, AggWriteMeta, AddMetaRes, ok, overlaps, no_space, entry_less, entry_at, entry_bound,
  overlap, add_meta_at, add_meta_entry,
}

-- The first entry has the smaller key, or the same one and ends before the second one starts.
abbrev pub Before : AggMetaEntry → AggMetaEntry → Type 0
Before a b = (a.key < b.key) ⊎ ((a.key ≡ b.key) × (rng_end_offset a.rng ≤ rng_offset b.rng))

pub record IsApart (xs : List AggMetaEntry) : Type 0 where
  pub nonempty :
      (i : ℕ) → i < length xs → rng_offset (entry_at xs i).rng < rng_end_offset (entry_at xs i).rng
  pub ordered : (i j : ℕ) → i < j → j < length xs → Before (entry_at xs i) (entry_at xs j)

-- The two entries have the same key and share a byte.
abbrev pub Clash : AggMetaEntry → AggMetaEntry → Type 0
Clash a b =
    (a.key ≡ b.key)
    × (rng_offset a.rng < rng_end_offset b.rng)
    × (rng_offset b.rng < rng_end_offset a.rng)

pub entry_bound-le : (e : AggMetaEntry) (xs : List AggMetaEntry) → entry_bound e xs ≤ length xs
unfolding entry_bound
entry_bound-le e [] = omega arith
entry_bound-le e (x ∷ xs) = ground (arith, entry_bound-le e xs)

pub entry_bound-before :
    (e : AggMetaEntry) (xs : List AggMetaEntry) (i : ℕ)
    → i < entry_bound e xs
    → ((entry_at xs i).key < e.key)
      ⊎ (((entry_at xs i).key ≡ e.key) × (rng_offset (entry_at xs i).rng < rng_offset e.rng))
unfolding entry_bound entry_less
entry_bound-before e [] i h = absurd (omega arith)
entry_bound-before e (x ∷ xs) zero h = ground arith
entry_bound-before e (x ∷ xs) (suc i) h = ground (arith, entry_bound-before e xs i)

pub entry_bound-at :
    (e : AggMetaEntry) (xs : List AggMetaEntry)
    → entry_bound e xs < length xs
    → (e.key < (entry_at xs (entry_bound e xs)).key)
      ⊎ ((e.key ≡ (entry_at xs (entry_bound e xs)).key)
          × (rng_offset e.rng ≤ rng_offset (entry_at xs (entry_bound e xs)).rng))
unfolding entry_bound entry_less
entry_bound-at e [] h = absurd (omega arith)
entry_bound-at e (x ∷ xs) h = ground (arith, entry_bound-at e xs)

overlap-Clash : (a b : AggMetaEntry) → overlap a b ≡ true → Clash a b
unfolding overlap
overlap-Clash a b h = ground (
  arith,
  (==_iff a.key b.key).0,
  (ranges_overlap_pos (rng_offset a.rng) (rng_end_offset a.rng) (rng_offset b.rng)
      (rng_end_offset b.rng)).0,
)

overlap_apart :
    (a b : AggMetaEntry)
    → rng_offset a.rng < rng_end_offset a.rng
    → rng_offset b.rng < rng_end_offset b.rng
    → overlap a b ≡ false
    → a.key ≡ b.key
    → (rng_end_offset a.rng ≤ rng_offset b.rng) ⊎ (rng_end_offset b.rng ≤ rng_offset a.rng)
unfolding overlap ranges_overlap
overlap_apart a b h k o q = ground (arith, (==_iff a.key b.key).1)

pub entry_at-insert_at :
    (k : ℕ) (e : AggMetaEntry) (xs : List AggMetaEntry) (i : ℕ)
    → k ≤ length xs
    → ((i < k) × (entry_at (insert_at k e xs) i ≡ entry_at xs i))
      ⊎ ((i ≡ k) × (entry_at (insert_at k e xs) i ≡ e))
      ⊎ ((k < i) × (entry_at (insert_at k e xs) i ≡ entry_at xs (i - 1)))
entry_at-insert_at k e xs i h = elim (Bool-cases (ltb i k)) [
  | inl t ↦ inl (ground arith, get_or-insert_at_before k e _ xs i (ground arith) h)
  | inr f ↦ inr (elim (Bool-cases (i == k)) [
    | inl t ↦ let p : i ≡ k = ground arith in inl (p, rw p (get_or-insert_at_self k e _ xs h))
    | inr g ↦
        let q : i ≡ suc (i - 1) = ground arith in
        inr (
          ground arith,
          ap (entry_at (insert_at k e xs)) q
              ∙ get_or-insert_at_after k e _ xs (i - 1) (ground arith),
        )
  ])
]

module _ (xs : List AggMetaEntry) (s : IsApart xs) (e : AggMetaEntry)
    (ne : rng_offset e.rng < rng_end_offset e.rng) where
  -- Position `k` is free for the entry.
  record IsSlot (k : ℕ) : Type 0 where
    inside : k ≤ length xs
    before : (i : ℕ) → i < k → Before (entry_at xs i) e
    after : (i : ℕ) → k ≤ i → i < length xs → Before e (entry_at xs i)

  insert_at-IsApart : (k : ℕ) → IsSlot k → IsApart (insert_at k e xs)
  insert_at-IsApart k free = record {
    nonempty = λ i b. elim (entry_at-insert_at k e xs i free.inside) [
      | inl (p, q) ↦ rw q (s.nonempty i (omega (arith, free.inside)))
      | inr (inl (p, q)) ↦ rw q ne
      | inr (inr (p, q)) ↦ rw q (s.nonempty (i - 1) (omega (arith, length-insert_at k e xs)))
    ];
    ordered = λ i j l b. ground (
      arith,
      entry_at-insert_at k e xs i free.inside,
      entry_at-insert_at k e xs j free.inside,
      length-insert_at k e xs,
      s.ordered i j,
      s.ordered i (j - 1),
      s.ordered (i - 1) (j - 1),
      free.before i,
      free.after (j - 1),
    );
  }

  slot-Before :
      (k : ℕ)
      → k ≡ entry_bound e xs
      → (0 < k → overlap (entry_at xs (k - 1)) e ≡ false)
      → (i : ℕ) → i < k
      → Before (entry_at xs i) e
  slot-Before k q prev i b =
      let le : k ≤ length xs = rw q (entry_bound-le e xs) in
      let p : ℕ = k - 1 in
      let sp = s.nonempty p (omega arith) in
      ground (
        arith,
        entry_bound-before e xs i,
        entry_bound-before e xs p,
        overlap_apart (entry_at xs p) e sp ne (prev (omega arith)),
        s.ordered i p,
        (==_iff i p).0,
      )

  slot_past :
      (k : ℕ)
      → k ≡ entry_bound e xs
      → (k < length xs → overlap (entry_at xs k) e ≡ false)
      → (i : ℕ) → k ≤ i
      → i < length xs
      → Before e (entry_at xs i)
  slot_past k q next i b l =
      let sk = s.nonempty k (omega arith) in
      ground (
        arith,
        entry_bound-at e xs,
        overlap_apart (entry_at xs k) e sk ne (next (omega arith)),
        s.ordered k i,
        (==_iff k i).0,
      )

  lower_IsSlot :
      (k : ℕ)
      → k ≡ entry_bound e xs
      → (0 < k → overlap (entry_at xs (k - 1)) e ≡ false)
      → (k < length xs → overlap (entry_at xs k) e ≡ false)
      → IsSlot k
  lower_IsSlot k q prev next = record {
    inside = rw q (entry_bound-le e xs);
    before = λ i b. slot-Before k q prev i b;
    after = λ i b l. slot_past k q next i b l;
  }

  -- What add_meta_at does.
  MetaResult : AddMetaRes × List AggMetaEntry → Type 0
  MetaResult r =
      ((r.0 ≡ ok) × ((k : ℕ) × (k ≤ length xs) × (r.1 ≡ insert_at k e xs)) × IsApart r.1)
      ⊎ ((r.0 ≡ overlaps) × (r.1 ≡ xs) × ((i : ℕ) × (i < length xs) × Clash (entry_at xs i) e))

  inserted :
      (k : ℕ)
      → k ≡ entry_bound e xs
      → (0 < k → overlap (entry_at xs (k - 1)) e ≡ false)
      → (k < length xs → overlap (entry_at xs k) e ≡ false)
      → MetaResult (ok, insert_at k e xs)
  unfolding MetaResult
  inserted k q prev next =
      let slot = lower_IsSlot k q prev next in
      inl (refl, (k, slot.inside, refl), insert_at-IsApart k slot)

  clashed : (i : ℕ) → i < length xs → overlap (entry_at xs i) e ≡ true → MetaResult (overlaps, xs)
  unfolding MetaResult
  clashed i b o = inr (refl, refl, (i, b, overlap-Clash (entry_at xs i) e o))

  at_front :
      entry_bound e xs ≡ 0
      → MetaResult (
          if length xs == 0 || not (overlap (entry_at xs 0) e)
          then (ok, insert_at 0 e xs)
          else (overlaps, xs))
  at_front q = elim (Bool-cases (length xs == 0 || not (overlap (entry_at xs 0) e))) [
    | inl t ↦ rw t (inserted 0 (omega arith) (λ h. absurd (omega arith)) (λ h. ground arith))
    | inr f ↦ rw f (clashed 0 (ground arith) (ground arith))
  ]

  at_end :
      entry_bound e xs ≡ length xs
      → 0 < length xs
      → MetaResult (
          if not (overlap (entry_at xs (length xs - 1)) e)
          then (ok, insert_at (length xs) e xs)
          else (overlaps, xs))
  at_end q h = elim (Bool-cases (not (overlap (entry_at xs (length xs - 1)) e))) [
    | inl t ↦
        rw t (inserted (length xs) (omega arith) (λ a. ground arith) (λ a. absurd (omega arith)))
    | inr f ↦ rw f (clashed (length xs - 1) (omega arith) (ground arith))
  ]

  in_middle :
      (k : ℕ)
      → k ≡ entry_bound e xs
      → 0 < k
      → k < length xs
      → MetaResult (
          if not (overlap (entry_at xs (k - 1)) e) && not (overlap (entry_at xs k) e)
          then (ok, insert_at k e xs)
          else (overlaps, xs))
  in_middle k q h b = elim (Bool-cases (overlap (entry_at xs (k - 1)) e)) [
    | inl t ↦ rw t (clashed (k - 1) (omega arith) t)
    | inr f ↦ rw f (elim (Bool-cases (overlap (entry_at xs k) e)) [
      | inl t ↦ rw t (clashed k b t)
      | inr g ↦ rw g (inserted k q (λ a. f) (λ a. g))
    ])
  ]

  at_last :
      entry_bound e xs ≡ length xs
      → (entry_bound e xs == 0) ≡ false
      → MetaResult (
          if length xs == length xs
          then if not (overlap (entry_at xs (length xs - 1)) e)
            then (ok, insert_at (length xs) e xs)
            else (overlaps, xs)
          else if not (overlap (entry_at xs (length xs - 1)) e)
              && not (overlap (entry_at xs (length xs)) e)
          then (ok, insert_at (length xs) e xs)
          else (overlaps, xs))
  at_last q f =
      let t : (length xs == length xs) ≡ true = (==_iff (length xs) (length xs)).1 refl in
      rw t (at_end q (ground arith))

  add_meta_at-MetaResult : MetaResult (add_meta_at e (entry_bound e xs) xs)
  unfolding add_meta_at
  add_meta_at-MetaResult =
      let k : ℕ = entry_bound e xs in
      elim (Bool-cases (k == 0)) [
        | inl t ↦ rw t (at_front ((==_iff k 0).0 t))
        | inr f ↦ rw f (elim (Bool-cases (k == length xs)) [
          | inl t ↦ let q : k ≡ length xs = (==_iff k (length xs)).0 t in rw q (at_last q f)
          | inr g ↦ rw g (in_middle k refl (ground arith) (ground (arith, entry_bound-le e xs)))
        ])
      ]

-- The outcome of add_entry.
pub record AddMetaOutcome (key : ℕ) (rng : RangeElem) (m : AggWriteMeta) (r : AddMetaRes)
    (m' : AggWriteMeta) : Type 0 where
  pub apart : IsApart m'.entries
  pub same_max : m'.max_cnt_entries ≡ m.max_cnt_entries
  pub answer :
      ((r ≡ ok)
        × (length m.entries < m.max_cnt_entries)
        × ((k : ℕ) × (k ≤ length m.entries)
            × (m'.entries ≡ insert_at k (record { rng = rng; key = key }) m.entries)))
      ⊎ ((r ≡ overlaps)
          × (m'.entries ≡ m.entries)
          × ((i : ℕ) × (i < length m.entries)
              × Clash (entry_at m.entries i) (record { rng = rng; key = key })))
      ⊎ ((r ≡ no_space) × (m'.entries ≡ m.entries) × (m.max_cnt_entries ≤ length m.entries))

-- On entries that are sorted and share no byte under one key, and for a non-empty element,
-- add_entry keeps them so, and answers whether it inserted, found an overlap under the same key,
-- or no space.
pub add_meta_entry-AddMetaOutcome :
    (key : ℕ) (rng : RangeElem) (m : AggWriteMeta)
    → rng_offset rng < rng_end_offset rng
    → IsApart m.entries
    → AddMetaOutcome key rng m (add_meta_entry key rng m).0 (add_meta_entry key rng m).1
unfolding add_meta_entry MetaResult
add_meta_entry-AddMetaOutcome key rng m ne s =
    let e : AggMetaEntry = record { rng = rng; key = key } in
    elim (Bool-cases (ltb (length m.entries) m.max_cnt_entries)) [
      | inl t ↦ rw t (elim (add_meta_at-MetaResult m.entries s e ne) [
        | inl (q, (k, b, w), a) ↦ record {
          apart = a;
          same_max = refl;
          answer = inl (q, ground arith, (k, b, w));
        }
        | inr (q, w, c) ↦ record { apart = rw w s; same_max = refl; answer = inr (inl (q, w, c)) }
      ])
      | inr f ↦
          rw f
            (record { apart = s; same_max = refl; answer = inr (inr (refl, refl, ground arith)) })
    ]
