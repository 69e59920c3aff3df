-- ===== src/RangeVector/Sorted.antt =====
-- The order that a range_vector keeps, and what a position tells in it.
use cache_work.Prelude.{ℕ, zero, suc, ◌≤◌, ◌<◌, ◌≡◌, ◌≢◌, List, [], ◌∷◌, length, arith}
use cache_work.RangeElem.{RangeElem, rng_offset, rng_end_offset}
use cache_work.RangeVector.{RangeVector, single, heap, at, lower_bound, max_ranges, elems}

-- No element is empty, and each one ends before the next one starts.
pub record IsSorted (xs : List RangeElem) : Type 0 where
  pub nonempty : (i : ℕ) → i < length xs → rng_offset (at xs i) < rng_end_offset (at xs i)
  pub ordered : (i j : ℕ) → i < j → j < length xs → rng_end_offset (at xs i) ≤ rng_offset (at xs j)

-- The byte at offset `p` lies in the element.
abbrev pub Holds : RangeElem → ℕ → Type 0
Holds e p = (rng_offset e ≤ p) × (p < rng_end_offset e)

-- The byte at offset `p` lies in some element.
abbrev pub Covers : List RangeElem → ℕ → Type 0
Covers xs p =
    (i : ℕ) × (i < length xs) × (rng_offset (at xs i) ≤ p) × (p < rng_end_offset (at xs i))

pub lower_bound-le : (off : ℕ) (xs : List RangeElem) → lower_bound off xs ≤ length xs
unfolding lower_bound
lower_bound-le off [] = omega arith
lower_bound-le off (x ∷ xs) = ground (arith, lower_bound-le off xs)

pub lower_bound-before :
    (off : ℕ) (xs : List RangeElem) (i : ℕ) → i < lower_bound off xs → rng_offset (at xs i) < off
unfolding lower_bound
lower_bound-before off [] i h = absurd (omega arith)
lower_bound-before off (x ∷ xs) zero h = ground arith
lower_bound-before off (x ∷ xs) (suc i) h = ground (arith, lower_bound-before off xs i)

pub lower_bound-at :
    (off : ℕ) (xs : List RangeElem)
    → lower_bound off xs < length xs
    → off ≤ rng_offset (at xs (lower_bound off xs))
unfolding lower_bound
lower_bound-at off [] h = absurd (omega arith)
lower_bound-at off (x ∷ xs) h = ground (arith, lower_bound-at off xs)

-- The invariant of a range_vector: one element stands in the small buffer, any other number on the
-- heap, in a block of exactly that size.
abbrev pub IsValid : RangeVector → Type 0
IsValid (single e) = rng_offset e < rng_end_offset e
IsValid (heap alloc xs) =
    (alloc ≡ length xs) × (length xs ≢ 1) × (length xs ≤ max_ranges) × IsSorted xs

singleton-nonempty :
    (e : RangeElem)
    → rng_offset e < rng_end_offset e
    → (i : ℕ) → i < 1
    → rng_offset (at (e ∷ []) i) < rng_end_offset (at (e ∷ []) i)
singleton-nonempty e h zero b = h
singleton-nonempty e h (suc i) b = absurd (omega arith)

pub elems-IsSorted : (v : RangeVector) → IsValid v → IsSorted (elems v)
elems-IsSorted (single e) h = record {
  nonempty = singleton-nonempty e h;
  ordered = λ i j l b. absurd (omega arith);
}
elems-IsSorted (heap alloc xs) h = h.3
