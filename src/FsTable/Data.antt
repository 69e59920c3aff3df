-- ===== src/FsTable/Data.antt =====
-- The bytes of the fragments of a vector, and what add_range and rem_range do to them.
use cache_work.Prelude.{
  ap, ℕ, zero, suc, ◌+◌, ◌-◌, ◌≤◌, ◌≡◌, refl, true, some, List, [], ◌∷◌, ◌++◌, length, take, drop,
  slice, insert_at, remove_slice, arith,
}
use cache_work.RangeElem.{RangeElem, rng_size, rng_offset, set_mark}
use cache_work.RangeVector.{RangeVector, single, heap, elems, lower_bound}
use cache_work.RangeVector.Update.{
  AddResult, add_range, add_range_impl, add_between, add_at_pos, add_second,
}
use cache_work.FsTable.{data_of}

pub data_of-append : (xs ys : List RangeElem) → data_of (xs ++ ys) ≡ data_of xs + data_of ys
unfolding data_of
data_of-append [] ys = omega arith
data_of-append (x ∷ xs) ys = ground (arith, data_of-append xs ys)

data_of-insert_at :
    (i : ℕ) (e : RangeElem) (xs : List RangeElem)
    → data_of (insert_at i e xs) ≡ data_of xs + rng_size e
unfolding data_of
data_of-insert_at zero e xs = omega arith
data_of-insert_at (suc i) e [] = omega arith
data_of-insert_at (suc i) e (x ∷ xs) = omega (arith, data_of-insert_at i e xs)

data_of-take-drop :
    (n : ℕ) (xs : List RangeElem) → data_of (take n xs) + data_of (drop n xs) ≡ data_of xs
unfolding data_of
data_of-take-drop zero xs = omega arith
data_of-take-drop (suc n) [] = refl
data_of-take-drop (suc n) (x ∷ xs) = omega (arith, data_of-take-drop n xs)

drop-drop : (i k : ℕ) (xs : List RangeElem) → drop k (drop i xs) ≡ drop (i + k) xs
drop-drop zero k xs = let q : 0 + k ≡ k = omega arith in rw q refl
drop-drop (suc i) zero [] = let q : suc i + 0 ≡ suc i = omega arith in rw q refl
drop-drop (suc i) (suc k) [] = let q : suc i + suc k ≡ suc (i + suc k) = omega arith in rw q refl
drop-drop (suc i) k (x ∷ xs) =
    let q : suc i + k ≡ suc (i + k) = omega arith in rw q (drop-drop i k xs)

pub data_of-remove_slice :
    (i j : ℕ) (xs : List RangeElem)
    → i ≤ j
    → data_of (remove_slice i j xs) + data_of (slice i j xs) ≡ data_of xs
data_of-remove_slice i j xs h =
    let q : i + (j - i) ≡ j = omega arith in
    omega (
      arith,
      data_of-append (take i xs) (drop j xs),
      data_of-take-drop i xs,
      data_of-take-drop (j - i) (drop i xs),
      ap data_of (drop-drop i (j - i) xs),
      ap (λ k. data_of (drop k xs)) q,
    )

-- The bytes of the elements of a vector.
abbrev pub bytes : RangeVector → ℕ
bytes v = data_of (elems v)

add_range_impl-bytes :
    (e : RangeElem) (cap alloc : ℕ) (xs : List RangeElem)
    → (add_range_impl e cap alloc xs).inserted ≡ true
    → bytes (add_range_impl e cap alloc xs).vec ≡ data_of xs + rng_size e
unfolding add_range_impl add_between add_at_pos
add_range_impl-bytes e cap alloc xs h = ground (
  arith,
  data_of-insert_at 0 e xs,
  data_of-insert_at (length xs) e xs,
  data_of-insert_at (lower_bound (rng_offset e) xs) e xs,
)

pub add_range-bytes :
    (e : RangeElem) (v : RangeVector) {r : AddResult}
    → add_range e v ≡ some r
    → r.inserted ≡ true
    → bytes r.vec ≡ bytes v + rng_size e
unfolding add_range add_second data_of set_mark rng_size
add_range-bytes e (single x) q h = ground (arith, add_range_impl-bytes e 2 2 (x ∷ []))
add_range-bytes e (heap alloc []) q h = ground arith
add_range-bytes e (heap alloc (x ∷ [])) q h = ground arith
add_range-bytes e (heap alloc (x ∷ y ∷ zs)) q h =
    ground (arith, add_range_impl-bytes e (length (x ∷ y ∷ zs)) alloc (x ∷ y ∷ zs))
