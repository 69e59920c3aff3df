-- ===== src/AggWriteMeta/Members.antt =====
-- has_entry of agg_write_meta: a search that finds every entry, and nothing else.
use cache_work.Prelude.{
  ℕ, suc, ◌≤◌, ◌<◌, ◌≡◌, ◌↔◌, inl, inr, refl, true, ltb, Bool-cases, List, length, insert_at,
  length-insert_at, get_or-insert_at_before, get_or-insert_at_self, get_or-insert_at_after, arith,
}
use cache_work.RangeElem.{RangeElem, rng_offset, rng_size, disk_offset, same_elem}
use cache_work.AggWriteMeta.{
  AggMetaEntry, AggWriteMeta, entry_at, entry_bound, same_entry, has_meta_entry,
}
use cache_work.AggWriteMeta.Order.{IsApart, entry_bound-le, entry_bound-before, entry_bound-at}

-- The entry at a position has this key, and is an element with this range and disk offset.
pub record IsEntry (key : ℕ) (rng : RangeElem) (e : AggMetaEntry) : Type 0 where
  pub same_key : e.key ≡ key
  pub same_offset : rng_offset e.rng ≡ rng_offset rng
  pub same_size : rng_size e.rng ≡ rng_size rng
  pub same_disk : disk_offset e.rng ≡ disk_offset rng

abbrev pub IsMember : ℕ → RangeElem → List AggMetaEntry → Type 0
IsMember key rng xs = (i : ℕ) × (i < length xs) × IsEntry key rng (entry_at xs i)

-- On entries that are apart the search stops at the entry with the same key and offset.
entry_bound_at_member :
    (xs : List AggMetaEntry) (e : AggMetaEntry)
    → IsApart xs
    → (i : ℕ) → i < length xs
    → (entry_at xs i).key ≡ e.key
    → rng_offset (entry_at xs i).rng ≡ rng_offset e.rng
    → entry_bound e xs ≡ i
entry_bound_at_member xs e s i b p q =
    let k : ℕ = entry_bound e xs in
    ground (
      arith,
      entry_bound-le e xs,
      entry_bound-before e xs i,
      entry_bound-at e xs,
      s.ordered k i,
      s.nonempty k,
    )

same_entry-IsEntry :
    (key : ℕ) (rng : RangeElem) (e : AggMetaEntry)
    → (same_entry e (record { rng = rng; key = key }) ≡ true) ↔ IsEntry key rng e
unfolding same_entry same_elem
same_entry-IsEntry key rng e = (
  λ h. record {
    same_key = ground arith;
    same_offset = ground arith;
    same_size = ground arith;
    same_disk = ground arith;
  },
  λ w. ground (arith, w.same_key, w.same_offset, w.same_size, w.same_disk),
)

-- On metadata whose entries are sorted and share no byte under one key, has_entry is true of a
-- key and an element exactly where an entry has this key, range and disk offset.
pub has_meta_entry_iff :
    (key : ℕ) (rng : RangeElem) (m : AggWriteMeta)
    → IsApart m.entries
    → (has_meta_entry key rng m ≡ true) ↔ IsMember key rng m.entries
unfolding has_meta_entry
has_meta_entry_iff key rng m s =
    let e : AggMetaEntry = record { rng = rng; key = key } in
    let k : ℕ = entry_bound e m.entries in
    (
      λ h. (
        k,
        ground (arith, entry_bound-le e m.entries),
        (same_entry-IsEntry key rng _).0 (ground arith),
      ),
      λ (i, b, w).
          let q : k ≡ i = entry_bound_at_member m.entries e s i b w.same_key w.same_offset in
          let t : same_entry (entry_at m.entries i) e ≡ true = (same_entry-IsEntry key rng _).1 w in
          rw (q, t) (ground arith),
    )

-- What an insertion keeps and adds.
pub insert_at_keeps :
    (k : ℕ) (e : AggMetaEntry) (xs : List AggMetaEntry) (key : ℕ) (rng : RangeElem)
    → k ≤ length xs
    → IsMember key rng xs
    → IsMember key rng (insert_at k e xs)
insert_at_keeps k e xs key rng h (i, b, w) = elim (Bool-cases (ltb i k)) [
  | inl t ↦ (
    i,
    omega (arith, length-insert_at k e xs),
    rw (get_or-insert_at_before k e _ xs i (ground arith) h) w,
  )
  | inr f ↦ (
    suc i,
    omega (arith, length-insert_at k e xs),
    rw (get_or-insert_at_after k e _ xs i (ground arith)) w,
  )
]

pub insert_at_adds :
    (k : ℕ) (e : AggMetaEntry) (xs : List AggMetaEntry)
    → k ≤ length xs
    → IsMember e.key e.rng (insert_at k e xs)
insert_at_adds k e xs h = (
  k,
  omega (arith, length-insert_at k e xs),
  rw (get_or-insert_at_self k e _ xs h)
      (record { same_key = refl; same_offset = refl; same_size = refl; same_disk = refl }),
)
