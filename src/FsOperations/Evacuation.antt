-- ===== src/FsOperations/Evacuation.antt =====
-- fsmd_rem_non_evac_frags and fsmd_begin_write_truncate: what they remove from the table.
use cache_work.Prelude.{
  ℕ, zero, suc, ◌≤◌, ◌<◌, ◌≡◌, ◌^◌, ◌*◌, inl, inr, refl, ap, ◌∙◌, true, ◌==◌, ==_iff, Bool-cases,
  Option, some, none, Option-cases, List, [], ◌∷◌, length, arith,
}
use cache_work.Units.{to_bytes, volume_block_size}
use cache_work.RangeElem.{RangeElem, rng_size}
use cache_work.RangeVector.{RangeVector, elems}
use cache_work.RangeVector.Sorted.{IsValid}
use cache_work.FsTable.{FsTable, data_of, find, rem_entries}
use cache_work.FsTable.Data.{bytes}
use cache_work.FsTable.Nodes.{find-IsValid}
use cache_work.FsTable.Counters.{IsCounted, IsValid-size, vec_of}
use cache_work.FsTable.Removing.{IsRemover, rem_entries-RemOutcome}
use cache_work.AggWriteMeta.{AggMetaEntry}
use cache_work.FsOperations.Writes.{
  evac_step, Group, evac_group, evac_rem, evac_key, evac_loop, keep_in_area, in_area,
  fsmd_rem_non_evac_frags,
}
use cache_work.FsOperations.Unread.{
  Has, Has-cons, Has-append_left, Has-append_right, first, later, IsReadIn, IsReadIn-Keeps,
  evac_group-Has,
}
use cache_work.FsOperations.Kept.{Keeps, Keeps-refl, Keeps-trans, evac_group-Shrinks}

-- A vector has less than 2 ^ 64 bytes.
data_of_bound : (xs : List RangeElem) → data_of xs ≤ length xs * 2 ^ 32
unfolding data_of rng_size
data_of_bound [] = omega arith
data_of_bound (x ∷ xs) = omega (arith, data_of_bound xs)

pub bytes_bound : (v : RangeVector) → IsValid v → bytes v < 2 ^ 64
bytes_bound v valid = omega (arith, data_of_bound (elems v), IsValid-size v valid)

pub evac_rem-IsRemover : (key : ℕ) (es : List AggMetaEntry) → IsRemover (evac_rem key es)
unfolding evac_rem
evac_rem-IsRemover key es = record {
  valid = λ v h. let s = evac_group-Shrinks key es v h in s.valid;
  fewer = λ v h. let s = evac_group-Shrinks key es v h in s.fewer;
  told = λ v h. let s = evac_group-Shrinks key es v h in omega (arith, s.told, bytes_bound v h);
  small = λ v h. omega arith;
}

-- On both tables, the elements of a key that have readers.
abbrev pub KeepsAll : FsTable → FsTable → Type 0
KeepsAll t t' =
    (k : ℕ) → Keeps (elems (vec_of (find k t.fs_nodes))) (elems (vec_of (find k t'.fs_nodes)))

-- A removal that keeps the elements with readers in each vector keeps them in the table.
pub rem_entries-KeepsAll :
    (key : ℕ) (rem : RangeVector → RangeVector × ℕ) (t : FsTable)
    → IsRemover rem
    → IsCounted t
    → ((v : RangeVector) → IsValid v → Keeps (elems v) (elems (rem v).0))
    → (r : Option ℕ) × (t' : FsTable) × (rem_entries key rem t ≡ some (r, t'))
      × IsCounted t'
      × KeepsAll t t'
rem_entries-KeepsAll key rem t is_rem c keeps =
    let (r, t', q, o) = rem_entries-RemOutcome key rem is_rem t c in
    (
      r,
      t',
      q,
      o.counted,
      λ k. elim (Bool-cases (k == key)) [
        | inr f ↦ rw (o.others k (ground (arith, (==_iff k key).1))) (Keeps-refl _)
        | inl e ↦ rw ((==_iff k key).0 e) (elim o.answer [
          | inl (n, p, s) ↦ rw s (Keeps-refl _)
          | inr (v, f, p, inl (gone, n)) ↦
              rw (f, n)
                (λ i b h.
                  let (j, d, w) = keeps v (find-IsValid key t.fs_nodes v c.kept f).0 i b h in
                  absurd (omega arith))
          | inr (v, f, p, inr (left, n)) ↦
              rw (f, n) (keeps v (find-IsValid key t.fs_nodes v c.kept f).0)
        ])
      ],
    )

-- The entries behind a group are fewer than those that start with it.
evac_group-shorter :
    (key : ℕ) (es : List AggMetaEntry) (v : RangeVector)
    → length (evac_group key es v).rest ≤ length es
unfolding evac_group
evac_group-shorter key [] v = omega arith
evac_group-shorter key (e ∷ es) v = elim (Bool-cases (e.key == key)) [
  | inl t ↦ rw t (omega (arith, evac_group-shorter key es (evac_step e v).vec))
  | inr f ↦ rw f (omega arith)
]

-- A group takes at least its first entry.
evac_group-fewer :
    (e : AggMetaEntry) (es : List AggMetaEntry) (v : RangeVector)
    → length (evac_group e.key (e ∷ es) v).rest ≤ length es
unfolding evac_group
evac_group-fewer e es v =
    let t : (e.key == e.key) ≡ true = (==_iff _ _).1 refl in
    rw t (evac_group-shorter e.key es (evac_step e v).vec)

evac_rem-Keeps :
    (key : ℕ) (es : List AggMetaEntry) (v : RangeVector)
    → IsValid v
    → Keeps (elems v) (elems (evac_rem key es v).0)
unfolding evac_rem
evac_rem-Keeps key es v valid = let s = evac_group-Shrinks key es v valid in s.keeps

-- The element of an entry is in the table, and has readers.
abbrev pub IsRead : AggMetaEntry → FsTable → Type 0
IsRead e t = IsReadIn e (elems (vec_of (find e.key t.fs_nodes)))

-- What the loop promises: true counters, no element with readers lost, and each entry whose
-- element has readers among those that stay.
pub record EvacOutcome (es : List AggMetaEntry) (t : FsTable) (kept : List AggMetaEntry)
    (t' : FsTable) : Type 0 where
  pub counted : IsCounted t'
  pub readers_stay : KeepsAll t t'
  pub read_stay : (e : AggMetaEntry) → Has e es → IsRead e t → Has e kept

no_fragments :
    (x e : AggMetaEntry) (es : List AggMetaEntry) (t : FsTable)
    → find x.key t.fs_nodes ≡ none
    → Has e (x ∷ es)
    → IsRead e t
    → Has e es
no_fragments x e es t n h r = elim (Has-cons h) [
  | inl q ↦
      let none_there : find e.key t.fs_nodes ≡ none = ap (λ z. find z.key t.fs_nodes) q ∙ n in
      let r' : IsReadIn e [] = rw none_there at r in absurd (omega (arith, r'.inside))
  | inr k ↦ k
]

same_vector :
    (e : AggMetaEntry) (key : ℕ) (v : RangeVector) (t : FsTable)
    → e.key ≡ key
    → find key t.fs_nodes ≡ some v
    → IsRead e t
    → IsReadIn e (elems v)
same_vector e key v t q f r =
    let there : find e.key t.fs_nodes ≡ some v = ap (λ z. find z t.fs_nodes) q ∙ f in rw there at r

-- With enough fuel, on a table with true counters, the loop returns.
evac_loop-EvacOutcome :
    (fuel : ℕ) (es : List AggMetaEntry) (t : FsTable)
    → length es ≤ fuel
    → IsCounted t
    → (kept : List AggMetaEntry) × (t' : FsTable) × (evac_loop fuel es t ≡ some (kept, t'))
      × EvacOutcome es t kept t'
unfolding evac_loop evac_key
evac_loop-EvacOutcome fuel [] t h c =
    ([], t, refl, record { counted = c; readers_stay = λ k. Keeps-refl _; read_stay = λ e k r. k })
evac_loop-EvacOutcome zero (x ∷ es) t h c = absurd (omega arith)
evac_loop-EvacOutcome (suc fuel) (x ∷ es) t h c = elim (Option-cases (find x.key t.fs_nodes)) [
  | inl n ↦
      let (kept, t', q, o) = evac_loop-EvacOutcome fuel es t (omega arith) c in
      rw n (
        kept,
        t',
        q,
        record {
          counted = o.counted;
          readers_stay = o.readers_stay;
          read_stay = λ e k r. o.read_stay e (no_fragments x e es t n k r) r;
        },
      )
  | inr (v, f) ↦
      let g : Group = evac_group x.key (x ∷ es) v in
      let valid = (find-IsValid x.key t.fs_nodes v c.kept f).0 in
      let (r, t1, q, c1, k1) =
        rem_entries-KeepsAll x.key (evac_rem x.key (x ∷ es)) t (evac_rem-IsRemover x.key (x ∷ es)) c
          (evac_rem-Keeps x.key (x ∷ es)) in
      let (kept, t2, p, o) =
        evac_loop-EvacOutcome fuel g.rest t1 (omega (arith, evac_group-fewer x es v)) c1 in
      rw (f, q, p)
        (
          _,
          t2,
          refl,
          record {
            counted = o.counted;
            readers_stay = λ k. Keeps-trans _ _ _ (k1 k) (o.readers_stay k);
            read_stay = λ e k r.
                elim (evac_group-Has x.key (x ∷ es) v valid e k
                  (λ s. same_vector e (x.key) v t s f r)) [
                    | inl l ↦ Has-append_left kept l
                    | inr l ↦
                        Has-append_right g.kept
                          (o.read_stay e l (IsReadIn-Keeps e _ _ (k1 e.key) r))
                  ];
          },
        )
]

keep_in_area-Has :
    (doffs dsize : ℕ) (es : List AggMetaEntry) (e : AggMetaEntry)
    → Has e es
    → in_area doffs dsize e ≡ true
    → Has e (keep_in_area doffs dsize es)
unfolding keep_in_area
keep_in_area-Has doffs dsize [] e k h = elim k [ ]
keep_in_area-Has doffs dsize (x ∷ es) _ first h = rw h first
keep_in_area-Has doffs dsize (x ∷ es) e (later k) h = elim (Bool-cases (in_area doffs dsize x)) [
  | inl t ↦ rw t (later (keep_in_area-Has doffs dsize es e k h))
  | inr f ↦ rw f (keep_in_area-Has doffs dsize es e k h)
]

-- On a table with true counters, fsmd_rem_non_evac_frags returns, and the counters are true
-- after it. It removes no element that has readers, and each entry whose element has readers,
-- and that lies in the area of the disk, is among those that are left to be evacuated.
pub fsmd_rem_non_evac_frags-EvacOutcome :
    (entries : List AggMetaEntry) (disk_offs area_size : ℕ) (t : FsTable)
    → IsCounted t
    → (left : List AggMetaEntry) × (t' : FsTable) × (fsmd_rem_non_evac_frags entries disk_offs
          area_size t
        ≡ some (left, t'))
      × IsCounted t'
      × KeepsAll t t'
      × ((e : AggMetaEntry)
          → Has e entries
          → IsRead e t
          → in_area (to_bytes volume_block_size disk_offs) (to_bytes volume_block_size area_size) e
            ≡ true
          → Has e left)
unfolding fsmd_rem_non_evac_frags
fsmd_rem_non_evac_frags-EvacOutcome entries disk_offs area_size t c =
    let (kept, t', q, o) = evac_loop-EvacOutcome (length entries) entries t (omega arith) c in
    rw q (
      _,
      t',
      refl,
      o.counted,
      o.readers_stay,
      λ e h r a. keep_in_area-Has _ _ kept e (o.read_stay e h r) a,
    )
