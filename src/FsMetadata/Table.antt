-- ===== src/FsMetadata/Table.antt =====
-- rem_table_entry: the removal of one fragment, by its exact offset and size.
use cache_work.Prelude.{
  ℕ, zero, suc, ◌+◌, ◌-◌, ◌≤◌, ◌<◌, ◌^◌, ◌≡◌, ◌⊎◌, inl, inr, refl, ◌==◌, Bool-cases, length, List,
  [], ◌∷◌, take, drop, arith, slice, length-remove_slice,
}
use cache_work.RangeElem.{RangeElem, rng_offset, rng_size}
use cache_work.RangeVector.{RangeVector, elems, at, size, IterRange, find_exact_elem}
use cache_work.RangeVector.Update.{rem_range}
use cache_work.RangeVector.Sorted.{IsValid, lower_bound-le}
use cache_work.RangeVector.Removal.{RemSpec, rem_range-RemSpec}
use cache_work.FsTable.{data_of}
use cache_work.FsTable.Data.{bytes, data_of-remove_slice}
use cache_work.FsTable.Removing.{IsRemover}
use cache_work.FsMetadata.{rem_exact}

pub find_exact_elem-le : (xs : List RangeElem) (e : RangeElem) → find_exact_elem xs e ≤ length xs
unfolding find_exact_elem
find_exact_elem-le xs e = ground (arith, lower_bound-le (rng_offset e) xs)

first_data :
    (i : ℕ) (xs : List RangeElem)
    → i < length xs
    → data_of (take 1 (drop i xs)) ≡ rng_size (at xs i)
unfolding data_of
first_data i [] h = absurd (omega arith)
first_data zero (x ∷ xs) h = omega arith
first_data (suc i) (x ∷ xs) h = first_data i xs (omega arith)

one_data :
    (i : ℕ) (xs : List RangeElem)
    → i < length xs
    → data_of (slice i (i + 1) xs) ≡ rng_size (at xs i)
unfolding data_of
one_data i xs h = let q : i + 1 - i ≡ 1 = omega arith in rw q (first_data i xs h)

small_size : (e : RangeElem) → rng_size e < 2 ^ 64
unfolding rng_size
small_size e = omega arith

-- The facts on what rem_exact leaves, where it finds the element.
module _ (e : RangeElem) (v : RangeVector) (valid : IsValid v)
    (found : find_exact_elem (elems v) e < size v) where
  abbrev spot : ℕ
  spot = find_exact_elem (elems v) e

  abbrev one : IterRange
  one = record { first = spot; last = spot + 1 }

  pub taken : RemSpec one (elems v) (rem_range one v)
  taken = rem_range-RemSpec one (omega arith) v (omega arith) valid

  pub taken_size : size (rem_range one v).0 + 1 ≡ size v
  taken_size =
      rw taken.1
        (omega (arith, length-remove_slice spot (spot + 1) (elems v) (omega arith) (omega arith)))

  taken_bytes : bytes (rem_range one v).0 + rng_size (at (elems v) spot) ≡ bytes v
  taken_bytes = rw taken.1 (
      omega (
        arith,
        data_of-remove_slice spot (spot + 1) (elems v) (omega arith),
        one_data spot (elems v) found,
      ))

-- What rem_exact hands back: the same vector, or one with one element less.
RemExact : RangeElem → RangeVector → RangeVector × ℕ → Type 0
RemExact e v out =
    IsValid out.0
    × ((size out.0 ≡ size v) ⊎ (size out.0 + 1 ≡ size v))
    × (bytes out.0 + out.1 ≡ bytes v)
    × (out.1 < 2 ^ 64)

rem_exact-RemExact : (e : RangeElem) (v : RangeVector) → IsValid v → RemExact e v (rem_exact e v)
unfolding rem_exact RemExact
rem_exact-RemExact e v valid = elim (Bool-cases (find_exact_elem (elems v) e == size v)) [
  | inl t ↦ rw t (valid, inl refl, omega arith, omega arith)
  | inr n ↦
      let found : find_exact_elem (elems v) e < size v =
        ground (arith, find_exact_elem-le (elems v) e) in
      rw n (
        (taken e v valid found).0,
        inr (taken_size e v valid found),
        taken_bytes e v valid found,
        small_size _,
      )
]

-- The remover of rem_table_entry keeps the promises that rem_entries asks for.
pub rem_exact-IsRemover : (e : RangeElem) → IsRemover (rem_exact e)
unfolding RemExact
rem_exact-IsRemover e = record {
  valid = λ v h. (rem_exact-RemExact e v h).0;
  fewer = λ v h. omega (arith, (rem_exact-RemExact e v h).1);
  told = λ v h. (rem_exact-RemExact e v h).2;
  small = λ v h. (rem_exact-RemExact e v h).3;
}
