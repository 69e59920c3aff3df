-- ===== src/FsOperations/Marks.antt =====
-- The marks that readers put on the elements they read: find_full_range does not see them, and they
-- are taken off as they were put on.
use cache_work.Prelude.{
  ℕ, zero, suc, ◌+◌, ◌-◌, ◌≡◌, refl, ap, Option, some, none, List, [], ◌∷◌, length,
}
use cache_work.Range.{Range}
use cache_work.RangeElem.{RangeElem, rng_offset, rng_size, rng_end_offset}
use cache_work.RangeVector.{
  at, lower_bound, full_loop, upto, full_from, full_last, full_start, find_full_range,
}

-- One more reader of an element.
abbrev pub bump : RangeElem → RangeElem
bump e = record e { cnt_readers = e.cnt_readers + 1 }

-- One more reader of `cnt` elements behind `skip` ones.
unfoldable pub raise : (skip cnt : ℕ) → List RangeElem → List RangeElem
raise skip cnt [] = []
raise (suc skip) cnt (x ∷ xs) = x ∷ raise skip cnt xs
raise zero zero (x ∷ xs) = x ∷ xs
raise zero (suc cnt) (x ∷ xs) = bump x ∷ raise zero cnt xs

pub raise_comm :
    (s c s' c' : ℕ) (xs : List RangeElem) → raise s c (raise s' c' xs) ≡ raise s' c' (raise s c xs)
unfolding raise
raise_comm s c s' c' [] = refl
raise_comm (suc s) c (suc s') c' (x ∷ xs) = ap (λ l. x ∷ l) (raise_comm s c s' c' xs)
raise_comm (suc s) c zero zero (x ∷ xs) = refl
raise_comm (suc s) c zero (suc c') (x ∷ xs) = ap (λ l. bump x ∷ l) (raise_comm s c zero c' xs)
raise_comm zero zero (suc s') c' (x ∷ xs) = refl
raise_comm zero (suc c) (suc s') c' (x ∷ xs) = ap (λ l. bump x ∷ l) (raise_comm zero c s' c' xs)
raise_comm zero zero zero zero (x ∷ xs) = refl
raise_comm zero zero zero (suc c') (x ∷ xs) = refl
raise_comm zero (suc c) zero zero (x ∷ xs) = refl
raise_comm zero (suc c) zero (suc c') (x ∷ xs) =
    ap (λ l. bump (bump x) ∷ l) (raise_comm zero c zero c' xs)

pub length-raise : (s c : ℕ) (xs : List RangeElem) → length (raise s c xs) ≡ length xs
unfolding raise
length-raise s c [] = refl
length-raise (suc s) c (x ∷ xs) = ap suc (length-raise s c xs)
length-raise zero zero (x ∷ xs) = refl
length-raise zero (suc c) (x ∷ xs) = ap suc (length-raise zero c xs)

-- A getter that does not look at the readers.
at-raise :
    (f : RangeElem → ℕ)
    → ((e : RangeElem) → f (bump e) ≡ f e)
    → (s c : ℕ) (xs : List RangeElem) (i : ℕ) → f (at (raise s c xs) i) ≡ f (at xs i)
unfolding raise
at-raise f h s c [] i = refl
at-raise f h (suc s) c (x ∷ xs) zero = refl
at-raise f h (suc s) c (x ∷ xs) (suc i) = at-raise f h s c xs i
at-raise f h zero zero (x ∷ xs) i = refl
at-raise f h zero (suc c) (x ∷ xs) zero = h x
at-raise f h zero (suc c) (x ∷ xs) (suc i) = at-raise f h zero c xs i

offset-bump : (e : RangeElem) → rng_offset (bump e) ≡ rng_offset e
unfolding rng_offset
offset-bump e = refl

end-bump : (e : RangeElem) → rng_end_offset (bump e) ≡ rng_end_offset e
unfolding rng_end_offset rng_offset rng_size
end-bump e = refl

pub offset-raise :
    (s c : ℕ) (xs : List RangeElem) (i : ℕ)
    → rng_offset (at (raise s c xs) i) ≡ rng_offset (at xs i)
offset-raise s c xs i = at-raise rng_offset offset-bump s c xs i

pub end-raise :
    (s c : ℕ) (xs : List RangeElem) (i : ℕ)
    → rng_end_offset (at (raise s c xs) i) ≡ rng_end_offset (at xs i)
end-raise s c xs i = at-raise rng_end_offset end-bump s c xs i

lower_bound-raise :
    (off s c : ℕ) (xs : List RangeElem) → lower_bound off (raise s c xs) ≡ lower_bound off xs
unfolding raise lower_bound
lower_bound-raise off s c [] = refl
lower_bound-raise off (suc s) c (x ∷ xs) = rw (lower_bound-raise off s c xs) refl
lower_bound-raise off zero zero (x ∷ xs) = refl
lower_bound-raise off zero (suc c) (x ∷ xs) =
    rw (offset-bump x, lower_bound-raise off zero c xs) refl

full_loop-raise :
    (s c : ℕ) (xs : List RangeElem) (stop rem it last_end : ℕ)
    → full_loop (raise s c xs) stop rem it last_end ≡ full_loop xs stop rem it last_end
unfolding full_loop
full_loop-raise s c xs stop zero it last_end = refl
full_loop-raise s c xs stop (suc rem) it last_end =
    rw
      (
        offset-raise s c xs it,
        end-raise s c xs it,
        full_loop-raise s c xs stop rem (it + 1) (rng_end_offset (at xs it)),
      )
      refl

upto-raise :
    (s c : ℕ) (xs : List RangeElem) (it : ℕ) (o : Option ℕ)
    → upto (raise s c xs) it o ≡ upto xs it o
upto-raise s c xs it none = rw (length-raise s c xs) refl
upto-raise s c xs it (some j) = refl

full_last-raise :
    (s c : ℕ) (xs : List RangeElem) (rng : Range) → full_last (raise s c xs) rng ≡ full_last xs rng
unfolding full_last
full_last-raise s c xs rng =
    rw (length-raise s c xs, offset-raise s c xs (length xs - 1), end-raise s c xs (length xs - 1))
      refl

full_start-raise :
    (s c : ℕ) (xs : List RangeElem) (rng : Range)
    → full_start (raise s c xs) rng ≡ full_start xs rng
unfolding full_start
full_start-raise s c xs rng =
    rw (lower_bound-raise rng.beg s c xs, offset-raise s c xs (lower_bound rng.beg xs)) refl

full_from-raise :
    (s c : ℕ) (xs : List RangeElem) (rng : Range) (it : ℕ)
    → full_from (raise s c xs) rng it ≡ full_from xs rng it
unfolding full_from
full_from-raise s c xs rng it =
    rw
      (
        offset-raise s c xs it,
        end-raise s c xs it,
        length-raise s c xs,
        full_loop-raise s c xs _ (length xs - it) it (rng_offset (at xs it)),
        upto-raise s c xs it _,
      )
      refl

-- find_full_range does not see the readers.
pub find_full_range-raise :
    (s c : ℕ) (xs : List RangeElem) (rng : Range)
    → find_full_range (raise s c xs) rng ≡ find_full_range xs rng
unfolding find_full_range
find_full_range-raise s c xs rng =
    rw
      (
        lower_bound-raise rng.beg s c xs,
        full_last-raise s c xs rng,
        full_start-raise s c xs rng,
        full_from-raise s c xs rng (full_start xs rng),
        length-raise s c xs,
      )
      refl
