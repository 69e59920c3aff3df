-- ===== src/FsOperations/Reading.antt =====
-- fsmd_begin_read and fsmd_end_read on the elements of one object, and any interleaving of them.
use cache_work.Prelude.{
  ℕ, zero, suc, ◌+◌, ◌-◌, ◌≡◌, inl, inr, refl, ap, ◌∙◌, true, false, ◌==◌, Bool-cases, ==_iff, some,
  List, [], ◌∷◌, arith,
}
use cache_work.Range.{Range}
use cache_work.RangeElem.{RangeElem, inc_readers, dec_readers, max_cnt_readers}
use cache_work.RangeVector.{IterRange, is_none, find_full_range}
use cache_work.FsOperations.{
  inc_loop, dec_loop, BeginRes, not_found, limit_reached, set, cnt_of, begin_marked,
  begin_read_elems,
}
use cache_work.FsOperations.Marks.{bump, raise, raise_comm, find_full_range-raise}

inc_readers-bump : (e : RangeElem) → (inc_readers e).0 ≡ true → (inc_readers e).1 ≡ bump e
unfolding inc_readers
inc_readers-bump e h = ground arith

inc_readers_full : (e : RangeElem) → (inc_readers e).0 ≡ false → e.cnt_readers ≡ max_cnt_readers
unfolding inc_readers
inc_readers_full e h = ground arith

dec_readers-bump : (e : RangeElem) → dec_readers (bump e) ≡ some e
unfolding dec_readers
dec_readers-bump e =
    let q : e.cnt_readers + 1 - 1 ≡ e.cnt_readers = omega arith in rw q (ground arith)

-- The marks stand on the first elements, up to the one that takes no more.
inc_loop-raise :
    (s c : ℕ) (xs : List RangeElem) → (inc_loop s c xs).1 ≡ raise s (inc_loop s c xs).0 xs
unfolding inc_loop raise
inc_loop-raise s c [] = refl
inc_loop-raise (suc s) c (x ∷ xs) = ap (λ l. x ∷ l) (inc_loop-raise s c xs)
inc_loop-raise zero zero (x ∷ xs) = refl
inc_loop-raise zero (suc c) (x ∷ xs) = elim (Bool-cases (inc_readers x).0) [
  | inl t ↦ rw (t, inc_readers-bump x t, inc_loop-raise zero c xs) refl
  | inr f ↦ rw f refl
]

pub dec_loop-raise : (s c : ℕ) (xs : List RangeElem) → dec_loop s c (raise s c xs) ≡ some xs
unfolding dec_loop raise
dec_loop-raise s c [] = refl
dec_loop-raise (suc s) c (x ∷ xs) = rw (dec_loop-raise s c xs) refl
dec_loop-raise zero zero (x ∷ xs) = refl
dec_loop-raise zero (suc c) (x ∷ xs) = rw (dec_readers-bump x, dec_loop-raise zero c xs) refl

-- The three answers of begin_read, and the elements after each.
pub data BeginAnswer (rng : Range) (xs : List RangeElem) : BeginRes → List RangeElem → Type 0 where
  absent : is_none (find_full_range xs rng) ≡ true → BeginAnswer rng xs not_found xs
  full : BeginAnswer rng xs limit_reached xs
  marked :
      is_none (find_full_range xs rng) ≡ false
      → BeginAnswer rng xs set
          (raise (find_full_range xs rng).first (cnt_of (find_full_range xs rng)) xs)

begin_marked-BeginAnswer :
    (rng : Range) (xs : List RangeElem)
    → is_none (find_full_range xs rng) ≡ false
    → (b : BeginRes) × (ys : List RangeElem) × (begin_marked
          (find_full_range xs rng)
          (inc_loop (find_full_range xs rng).first (cnt_of (find_full_range xs rng)) xs)
        ≡ some (b, ys))
      × BeginAnswer rng xs b ys
unfolding begin_marked
begin_marked-BeginAnswer rng xs f =
    let r : IterRange = find_full_range xs rng in
    let m : ℕ × List RangeElem = inc_loop r.first (cnt_of r) xs in
    elim (Bool-cases (m.0 == cnt_of r)) [
      | inl t ↦
          let q : m.0 ≡ cnt_of r = (==_iff _ _).0 t in
          (
            set,
            raise r.first (cnt_of r) xs,
            rw (t, inc_loop-raise r.first (cnt_of r) xs, q) refl,
            marked f,
          )
      | inr n ↦ (
        limit_reached,
        xs,
        rw (n, inc_loop-raise r.first (cnt_of r) xs, dec_loop-raise r.first m.0 xs) refl,
        full,
      )
    ]

-- fsmd_begin_read on the elements of an object never aborts. Where the range is not there, or one
-- of its elements has no room for a reader, the elements are left as they were; else each element
-- of the range has one reader more, and no other element is changed.
pub begin_read_elems-BeginAnswer :
    (rng : Range) (xs : List RangeElem)
    → (b : BeginRes) × (ys : List RangeElem) × (begin_read_elems rng xs ≡ some (b, ys))
      × BeginAnswer rng xs b ys
unfolding begin_read_elems
begin_read_elems-BeginAnswer rng xs = elim (Bool-cases (is_none (find_full_range xs rng))) [
  | inl t ↦ rw t (not_found, xs, refl, absent t)
  | inr f ↦ rw f (begin_marked-BeginAnswer rng xs f)
]

-- The elements with the marks of the readers of these ranges.
abbrev pub raises : List Range → List RangeElem → List RangeElem
raises [] xs = xs
raises (rng ∷ rngs) xs =
    raise (find_full_range xs rng).first (cnt_of (find_full_range xs rng)) (raises rngs xs)

pub find_full_range-raises :
    (rngs : List Range) (xs : List RangeElem) (rng : Range)
    → find_full_range (raises rngs xs) rng ≡ find_full_range xs rng
find_full_range-raises [] xs rng = refl
find_full_range-raises (r ∷ rngs) xs rng =
    find_full_range-raise _ _ (raises rngs xs) rng ∙ find_full_range-raises rngs xs rng

-- One of the readers, and the others.
pub data Pick : Range → List Range → List Range → Type 0 where
  here : {rng : Range} {rngs : List Range} → Pick rng (rng ∷ rngs) rngs
  there :
      {rng other : Range} {rngs rest : List Range}
      → Pick rng rngs rest
      → Pick rng (other ∷ rngs) (other ∷ rest)

pub raises-Pick :
    {rng : Range} {rngs rest : List Range} (xs : List RangeElem)
    → Pick rng rngs rest
    → raises rngs xs ≡ raises (rng ∷ rest) xs
raises-Pick xs here = refl
raises-Pick {rest = other ∷ rest} xs (there p) =
    ap (raise (find_full_range xs other).first (cnt_of (find_full_range xs other)))
      (raises-Pick xs p)
    ∙ raise_comm _ _ _ _ (raises rest xs)
