-- ===== src/FsTable/Nodes.antt =====
-- The association list of an fs_table: what its operations do to a look-up and to a sum.
use cache_work.Prelude.{
  ℕ, ◌+◌, ◌<◌, ◌≤◌, ◌≡◌, ◌≢◌, inl, inr, refl, ◌==◌, ==_iff, Bool-cases, none, some, List, [], ◌∷◌,
  length, arith,
}
use cache_work.RangeVector.{RangeVector, size}
use cache_work.RangeVector.Sorted.{IsValid}
use cache_work.FsTable.{Node, find, put, erase}

-- Every key stands once, with a valid vector that is not empty.
abbrev pub IsKept : List Node → Type 0
IsKept [] = Unit
IsKept ((k, v) ∷ ns) = (find k ns ≡ none) × IsValid v × (0 < size v) × IsKept ns

-- The sum of a measure of the vectors.
unfoldable pub total : (RangeVector → ℕ) → List Node → ℕ
total f [] = 0
total f ((k, v) ∷ ns) = f v + total f ns

pub find-IsValid :
    (key : ℕ) (ns : List Node) (v : RangeVector)
    → IsKept ns
    → find key ns ≡ some v
    → IsValid v × (0 < size v)
unfolding find
find-IsValid key [] v kept e = absurd (ground arith)
find-IsValid key ((k, x) ∷ ns) v kept e = elim (Bool-cases (k == key)) [
  | inl t ↦ let q : x ≡ v = ground arith in rw (← q) (kept.1, kept.2)
  | inr f ↦ find-IsValid key ns v kept.3 (rw f at e)
]

pub find-insert_same :
    (key : ℕ) (v : RangeVector) (ns : List Node) → find key ((key, v) ∷ ns) ≡ some v
unfolding find
find-insert_same key v ns = ground arith

pub find-insert_other :
    (key other : ℕ) (v : RangeVector) (ns : List Node)
    → other ≢ key
    → find other ((key, v) ∷ ns) ≡ find other ns
unfolding find
find-insert_other key other v ns n = ground arith

pub find-put_same :
    (key : ℕ) (w v : RangeVector) (ns : List Node)
    → find key ns ≡ some v
    → find key (put key w ns) ≡ some w
unfolding find put
find-put_same key w v [] e = absurd (ground arith)
find-put_same key w v ((k, x) ∷ ns) e = ground (arith, find-put_same key w v ns)

pub find-put_other :
    (key other : ℕ) (w : RangeVector) (ns : List Node)
    → other ≢ key
    → find other (put key w ns) ≡ find other ns
unfolding find put
find-put_other key other w [] n = refl
find-put_other key other w ((k, x) ∷ ns) n = ground (arith, find-put_other key other w ns)

pub find-erase_other :
    (key other : ℕ) (ns : List Node) → other ≢ key → find other (erase key ns) ≡ find other ns
unfolding find erase
find-erase_other key other [] n = refl
find-erase_other key other ((k, x) ∷ ns) n = ground (arith, find-erase_other key other ns)

pub find-erase_same : (key : ℕ) (ns : List Node) → IsKept ns → find key (erase key ns) ≡ none
unfolding find erase
find-erase_same key [] kept = refl
find-erase_same key ((k, x) ∷ ns) kept = elim (Bool-cases (k == key)) [
  | inl t ↦ rw (t, ← (==_iff k key).0 t) kept.0
  | inr f ↦ rw (f, f) (find-erase_same key ns kept.3)
]

pub put-same :
    (key : ℕ) (v : RangeVector) (ns : List Node) → find key ns ≡ some v → put key v ns ≡ ns
unfolding find put
put-same key v [] e = refl
put-same key v ((k, x) ∷ ns) e = elim (Bool-cases (k == key)) [
  | inl t ↦ let q : x ≡ v = ground arith in rw (t, q) refl
  | inr f ↦ rw (f, put-same key v ns (rw f at e)) refl
]

pub length-put : (key : ℕ) (w : RangeVector) (ns : List Node) → length (put key w ns) ≡ length ns
unfolding put
length-put key w [] = refl
length-put key w ((k, x) ∷ ns) = ground (arith, length-put key w ns)

pub length-erase :
    (key : ℕ) (v : RangeVector) (ns : List Node)
    → find key ns ≡ some v
    → length (erase key ns) + 1 ≡ length ns
unfolding find erase
length-erase key v [] e = absurd (ground arith)
length-erase key v ((k, x) ∷ ns) e = ground (arith, length-erase key v ns)

pub IsKept-put :
    (key : ℕ) (w : RangeVector) (ns : List Node)
    → IsValid w
    → 0 < size w
    → IsKept ns
    → IsKept (put key w ns)
unfolding put
IsKept-put key w [] valid some_elems kept = kept
IsKept-put key w ((k, x) ∷ ns) valid some_elems kept = elim (Bool-cases (k == key)) [
  | inl t ↦ rw t (kept.0, valid, some_elems, kept.3)
  | inr f ↦ rw f (
    rw (find-put_other key k w ns (ground (arith, (==_iff k key).1))) kept.0,
    kept.1,
    kept.2,
    IsKept-put key w ns valid some_elems kept.3,
  )
]

pub IsKept-erase : (key : ℕ) (ns : List Node) → IsKept ns → IsKept (erase key ns)
unfolding erase
IsKept-erase key [] kept = kept
IsKept-erase key ((k, x) ∷ ns) kept = elim (Bool-cases (k == key)) [
  | inl t ↦ rw t kept.3
  | inr f ↦ rw f (
    rw (find-erase_other key k ns (ground (arith, (==_iff k key).1))) kept.0,
    kept.1,
    kept.2,
    IsKept-erase key ns kept.3,
  )
]

module _ (f : RangeVector → ℕ) where
  pub total-put :
      (key : ℕ) (w v : RangeVector) (ns : List Node)
      → find key ns ≡ some v
      → total f (put key w ns) + f v ≡ total f ns + f w
  unfolding find put total
  total-put key w v [] e = absurd (ground arith)
  total-put key w v ((k, x) ∷ ns) e = elim (Bool-cases (k == key)) [
    | inl t ↦ let q : x ≡ v = ground arith in rw (t, q) (omega arith)
    | inr n ↦ rw n (ground (arith, total-put key w v ns (rw n at e)))
  ]

  pub total-erase :
      (key : ℕ) (v : RangeVector) (ns : List Node)
      → find key ns ≡ some v
      → total f (erase key ns) + f v ≡ total f ns
  unfolding find erase total
  total-erase key v [] e = absurd (ground arith)
  total-erase key v ((k, x) ∷ ns) e = elim (Bool-cases (k == key)) [
    | inl t ↦ let q : x ≡ v = ground arith in rw (t, q) (omega arith)
    | inr n ↦ rw n (ground (arith, total-erase key v ns (rw n at e)))
  ]

  pub total-find :
      (key : ℕ) (v : RangeVector) (ns : List Node) → find key ns ≡ some v → f v ≤ total f ns
  total-find key v ns e = omega (arith, total-erase key v ns e)
