-- ===== src/FsOperations/Kept.antt =====
-- Elements that have readers stay: what rem_range and the functors of the removals do to them.
use cache_work.Prelude.{
  ℕ, zero, suc, ◌+◌, ◌-◌, ◌≤◌, ◌<◌, ◌≡◌, ◌⊎◌, inl, inr, refl, ap, ◌∙◌, true, false, ◌==◌, ltb,
  Bool-cases, List, [], ◌∷◌, length, remove_slice, length-remove_slice, get_or-remove_slice_before,
  get_or-remove_slice_after, arith,
}
use cache_work.RangeElem.{RangeElem, has_readers, make_zero_range_elem}
use cache_work.RangeVector.{RangeVector, elems, size, at, IterRange, find_exact_elem}
use cache_work.RangeVector.Update.{rem_range}
use cache_work.RangeVector.Sorted.{IsValid}
use cache_work.RangeVector.Removal.{rem_range-RemSpec}
use cache_work.FsTable.Data.{bytes}
use cache_work.FsMetadata.{rem_exact}
use cache_work.FsMetadata.Table.{find_exact_elem-le, rem_exact-IsRemover}
use cache_work.AggWriteMeta.{AggMetaEntry}
use cache_work.FsOperations.Writes.{any_readers, evac_step, evac_group}

-- Each element that has readers is still there.
abbrev pub Keeps : List RangeElem → List RangeElem → Type 0
Keeps xs ys =
    (i : ℕ)
    → i < length xs
    → has_readers (at xs i) ≡ true
    → (j : ℕ) × (j < length ys) × (at ys j ≡ at xs i)

pub Keeps-refl : (xs : List RangeElem) → Keeps xs xs
Keeps-refl xs i b h = (i, b, refl)

pub Keeps-trans : (xs ys zs : List RangeElem) → Keeps xs ys → Keeps ys zs → Keeps xs zs
Keeps-trans xs ys zs f g i b h =
    let (j, c, p) = f i b h in let (k, d, q) = g j c (ap has_readers p ∙ h) in (k, d, q ∙ p)

pub remove_slice-Keeps :
    (i j : ℕ) (xs : List RangeElem)
    → i ≤ j
    → j ≤ length xs
    → ((m : ℕ) → i ≤ m → m < j → has_readers (at xs m) ≡ false)
    → Keeps xs (remove_slice i j xs)
remove_slice-Keeps i j xs h k unread m b r =
    let len = length-remove_slice i j xs h k in
    elim (Bool-cases (ltb m i)) [
      | inl t ↦ (
        m,
        ground (arith, len),
        get_or-remove_slice_before i j m make_zero_range_elem xs (ground arith) (omega arith),
      )
      | inr f ↦ elim (Bool-cases (ltb m j)) [
        | inl t ↦ let u = unread m (ground arith) (ground arith) in absurd cc
        | inr g ↦
            let le : j ≤ m = ground arith in
            let e : m - (j - i) + (j - i) ≡ m = omega arith in
            (
              m - (j - i),
              omega (arith, len),
              get_or-remove_slice_after i j (m - (j - i)) make_zero_range_elem xs h (omega arith) k
                  ∙ ap (at xs) e,
            )
      ]
    ]

pub rem_range-Keeps :
    (r : IterRange) (v : RangeVector)
    → IsValid v
    → r.first < r.last
    → r.last ≤ size v
    → ((m : ℕ) → r.first ≤ m → m < r.last → has_readers (at (elems v) m) ≡ false)
    → Keeps (elems v) (elems (rem_range r v).0)
rem_range-Keeps r v valid h k unread =
    let spec = rem_range-RemSpec r h v k valid in
    rw spec.1 (remove_slice-Keeps r.first r.last (elems v) (omega arith) k unread)

pub any_readers-at :
    (xs : List RangeElem)
    → any_readers xs ≡ false
    → (m : ℕ) → m < length xs
    → has_readers (at xs m) ≡ false
unfolding any_readers
any_readers-at [] h m b = absurd (omega arith)
any_readers-at (x ∷ xs) h zero b = ground arith
any_readers-at (x ∷ xs) h (suc m) b = any_readers-at xs (ground arith) m (omega arith)

-- One entry of fsmd_rem_non_evac_frags: what rem_exact does, where the element has no readers.
evac_step-rem_exact :
    (e : AggMetaEntry) (v : RangeVector)
    → (((evac_step e v).vec ≡ v) × ((evac_step e v).gone ≡ 0))
      ⊎ (((evac_step e v).vec ≡ (rem_exact e.rng v).0)
          × ((evac_step e v).gone ≡ (rem_exact e.rng v).1))
unfolding evac_step rem_exact
evac_step-rem_exact e v = elim (Bool-cases (find_exact_elem (elems v) e.rng == size v)) [
  | inl t ↦ rw t (inl (refl, refl))
  | inr f ↦ rw f (elim (Bool-cases (has_readers (at (elems v) (find_exact_elem (elems v) e.rng)))) [
    | inl t ↦ rw t (inl (refl, refl))
    | inr g ↦ rw g (inr (refl, refl))
  ])
]

evac_step-Keeps :
    (e : AggMetaEntry) (v : RangeVector) → IsValid v → Keeps (elems v) (elems (evac_step e v).vec)
unfolding evac_step
evac_step-Keeps e v valid =
    let it : ℕ = find_exact_elem (elems v) e.rng in
    elim (Bool-cases (it == size v)) [
      | inl t ↦ rw t (Keeps-refl (elems v))
      | inr f ↦ rw f (elim (Bool-cases (has_readers (at (elems v) it))) [
        | inl t ↦ rw t (Keeps-refl (elems v))
        | inr g ↦
            let lt : it < size v = ground (arith, find_exact_elem-le (elems v) e.rng) in
            rw g (
              rem_range-Keeps (record { first = it; last = it + 1 }) v valid (omega arith)
                (omega arith)
                (λ m b c.
                  let q : m ≡ it = omega arith in ap (λ n. has_readers (at (elems v) n)) q ∙ g))
      ])
    ]

-- What one step, and a run of steps, promise of the vector.
pub record Shrinks (v w : RangeVector) (gone : ℕ) : Type 0 where
  pub valid : IsValid w
  pub fewer : size w ≤ size v
  pub told : bytes w + gone ≡ bytes v
  pub keeps : Keeps (elems v) (elems w)

pub evac_step-Shrinks :
    (e : AggMetaEntry) (v : RangeVector)
    → IsValid v
    → Shrinks v (evac_step e v).vec (evac_step e v).gone
evac_step-Shrinks e v valid =
    let keeps = evac_step-Keeps e v valid in
    let rem = rem_exact-IsRemover e.rng in
    elim (evac_step-rem_exact e v) [
      | inl (p, q) ↦ record {
        valid = rw p valid;
        fewer = rw p (omega arith);
        told = rw (p, q) (omega arith);
        keeps = keeps;
      }
      | inr (p, q) ↦ record {
        valid = rw p (rem.valid v valid);
        fewer = rw p (rem.fewer v valid);
        told = rw (p, q) (rem.told v valid);
        keeps = keeps;
      }
    ]

pub evac_group-Shrinks :
    (key : ℕ) (es : List AggMetaEntry) (v : RangeVector)
    → IsValid v
    → Shrinks v (evac_group key es v).vec (evac_group key es v).rem_size
unfolding evac_group
evac_group-Shrinks key [] v valid = record {
  valid = valid;
  fewer = omega arith;
  told = omega arith;
  keeps = Keeps-refl (elems v);
}
evac_group-Shrinks key (e ∷ es) v valid = elim (Bool-cases (e.key == key)) [
  | inl t ↦
      let s = evac_step-Shrinks e v valid in
      let g = evac_group-Shrinks key es (evac_step e v).vec s.valid in
      rw t (record {
        valid = g.valid;
        fewer = omega (arith, s.fewer, g.fewer);
        told = omega (arith, s.told, g.told);
        keeps = Keeps-trans (elems v) _ _ s.keeps g.keeps;
      })
  | inr f ↦ rw f (record {
    valid = valid;
    fewer = omega arith;
    told = omega arith;
    keeps = Keeps-refl (elems v);
  })
]
