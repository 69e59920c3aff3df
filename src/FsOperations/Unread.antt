-- ===== src/FsOperations/Unread.antt =====
-- One group of fsmd_rem_non_evac_frags: an entry whose element has readers stays.
use std.Path.{subst}
use cache_work.Prelude.{
  ℕ, ◌<◌, ◌≡◌, ◌⊎◌, inl, inr, refl, ap, ◌∙◌, sym, true, false, ◌==◌, ==_iff, Bool-cases,
  if◌then◌else◌, List, [], ◌∷◌, ◌++◌, length, arith,
}
use cache_work.RangeElem.{RangeElem, rng_offset, rng_size, has_readers}
use cache_work.RangeVector.{RangeVector, elems, size, at, lower_bound, find_exact_elem}
use cache_work.RangeVector.Sorted.{
  IsValid, IsSorted, elems-IsSorted, lower_bound-le, lower_bound-before, lower_bound-at,
}
use cache_work.AggWriteMeta.{AggMetaEntry}
use cache_work.FsOperations.Writes.{evac_step, evac_group}
use cache_work.FsOperations.Kept.{Keeps, evac_step-Shrinks}

pub data Has {A : Type 0} (x : A) : List A → Type 0 where
  first : {xs : List A} → Has x (x ∷ xs)
  later : {y : A} {xs : List A} → Has x xs → Has x (y ∷ xs)

pub Has-cons : {A : Type 0} {x y : A} {xs : List A} → Has x (y ∷ xs) → (x ≡ y) ⊎ Has x xs
Has-cons first = inl refl
Has-cons (later h) = inr h

pub Has-append_left : {A : Type 0} {x : A} {xs : List A} (ys : List A) → Has x xs → Has x (xs ++ ys)
Has-append_left ys first = first
Has-append_left ys (later h) = later (Has-append_left ys h)

pub Has-append_right :
    {A : Type 0} {x : A} (xs : List A) {ys : List A} → Has x ys → Has x (xs ++ ys)
Has-append_right [] h = h
Has-append_right (y ∷ xs) h = later (Has-append_right xs h)

-- The vector has an element with the range of the entry, and this element has readers.
pub record IsReadIn (e : AggMetaEntry) (xs : List RangeElem) : Type 0 where
  pub pos : ℕ
  pub inside : pos < length xs
  pub same_offset : rng_offset (at xs pos) ≡ rng_offset e.rng
  pub same_size : rng_size (at xs pos) ≡ rng_size e.rng
  pub read : has_readers (at xs pos) ≡ true

pub IsReadIn-Keeps :
    (e : AggMetaEntry) (xs ys : List RangeElem) → Keeps xs ys → IsReadIn e xs → IsReadIn e ys
IsReadIn-Keeps e xs ys keeps r =
    let (j, b, q) = keeps r.pos r.inside r.read in
    record {
      pos = j;
      inside = b;
      same_offset = ap rng_offset q ∙ r.same_offset;
      same_size = ap rng_size q ∙ r.same_size;
      read = ap has_readers q ∙ r.read;
    }

-- In a sorted vector the search for an exact range finds the one element that has it.
pub lower_bound-at_elem :
    (xs : List RangeElem) (i : ℕ)
    → IsSorted xs
    → i < length xs
    → lower_bound (rng_offset (at xs i)) xs ≡ i
lower_bound-at_elem xs i s b =
    let off : ℕ = rng_offset (at xs i) in
    let k : ℕ = lower_bound off xs in
    ground (
      arith,
      lower_bound-le off xs,
      lower_bound-before off xs i,
      lower_bound-at off xs,
      s.ordered k i,
      s.nonempty k,
    )

find_exact_elem_found :
    (e : AggMetaEntry) (xs : List RangeElem)
    → IsSorted xs
    → (r : IsReadIn e xs) → find_exact_elem xs e.rng ≡ r.pos
unfolding find_exact_elem
find_exact_elem_found e xs s r =
    let q : lower_bound (rng_offset e.rng) xs ≡ r.pos =
      ap (λ o. lower_bound o xs) (sym r.same_offset) ∙ lower_bound-at_elem xs r.pos s r.inside in
    rw q (ground (arith, r.inside, r.same_offset, r.same_size))

evac_step_stays :
    (e : AggMetaEntry) (v : RangeVector)
    → IsValid v
    → IsReadIn e (elems v)
    → (evac_step e v).stays ≡ true
unfolding evac_step
evac_step_stays e v valid r =
    let f : (r.pos == size v) ≡ false = ground (arith, r.inside) in
    rw (find_exact_elem_found e (elems v) (elems-IsSorted v valid) r, f, r.read) refl

pub evac_group-Has :
    (key : ℕ) (es : List AggMetaEntry) (v : RangeVector)
    → IsValid v
    → (e : AggMetaEntry) → Has e es
    → (e.key ≡ key → IsReadIn e (elems v))
    → Has e (evac_group key es v).kept ⊎ Has e (evac_group key es v).rest
unfolding evac_group
evac_group-Has key [] v valid e h read = elim h [ ]
evac_group-Has key (x ∷ es) v valid e h read = elim (Bool-cases (x.key == key)) [
  | inr f ↦ rw f (inr h)
  | inl t ↦ rw t (elim (Has-cons h) [
    | inl q ↦
        let r : IsReadIn x (elems v) =
          subst (λ z. IsReadIn z (elems v)) q (read (ap (λ z. z.key) q ∙ (==_iff _ _).0 t)) in
        subst
          (λ z.
            Has z (
              if (evac_step x v).stays
              then x ∷ (evac_group key es (evac_step x v).vec).kept
              else (evac_group key es (evac_step x v).vec).kept)
            ⊎ Has z (evac_group key es (evac_step x v).vec).rest)
          (sym q) (rw (evac_step_stays x v valid r) (inl first))
    | inr k ↦
        let s = evac_step-Shrinks x v valid in
        elim (evac_group-Has key es (evac_step x v).vec s.valid e k
          (λ q. IsReadIn-Keeps e _ _ s.keeps (read q))) [
            | inr r ↦ inr r
            | inl l ↦ inl (elim (Bool-cases (evac_step x v).stays) [
              | inl u ↦ rw u (later l)
              | inr u ↦ rw u l
            ])
          ]
  ])
]
