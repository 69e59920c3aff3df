-- ===== src/Transactions.antt =====
-- xproxy-beta/cache/read_transaction.h, read_transaction.cpp, write_transaction.h and
-- write_transaction.cpp: how far a read or a write of a range has come. `none` is a failed
-- assertion.
use cache_work.Prelude.{
  ℕ, ◌+◌, ◌-◌, ◌^◌, Bool, not, leb, ◌==◌, if◌then◌else◌, ◌&&◌, Option, none, some, ◌≡◌, ◌≤◌, ◌<◌,
  ◌⊎◌, inl, inr, refl, true, false, arith, List, [], ◌∷◌, ◌>>=◌, Bool-cases,
}
use cache_work.Units.{u64, sub64}
use cache_work.Range.{Range}

abbrev pub invalid_value : ℕ
invalid_value = 2 ^ 64 - 1

-- read_transaction holds an object_key, write_transaction the two parts of one.
pub record Transaction : Type 0 where
  pub fs_node_key : ℕ
  pub rng : Range
  pub done : ℕ

unfoldable pub make_transaction : ℕ → Range → Transaction
make_transaction fs_node_key rng = record { fs_node_key = fs_node_key; rng = rng; done = 0 }

unfoldable pub valid : Transaction → Bool
valid t = not (t.done == invalid_value)

unfoldable pub invalidate : Transaction → Transaction
invalidate t = record t { done = invalid_value }

unfoldable pub curr_offset : Transaction → ℕ
curr_offset t = u64 (t.rng.beg + t.done)

unfoldable pub remaining_bytes : Transaction → ℕ
remaining_bytes t = sub64 t.rng.len t.done

unfoldable pub finished : Transaction → Bool
finished t = t.done == t.rng.len

-- `inc_read_bytes` and `inc_written`
unfoldable pub inc_done : ℕ → Transaction → Option Transaction
unfolding valid
inc_done bytes t =
    if valid t && leb bytes (sub64 t.rng.len t.done)
    then some (record t { done = u64 (t.done + bytes) })
    else none

-- The move assignment: the target, and what is left of the source.
unfoldable pub move_to : Transaction → Transaction → Option (Transaction × Transaction)
unfolding valid invalidate
move_to from target = if valid target then none else some (from, invalidate from)

-- A run of inc_done.
unfoldable pub inc_all : List ℕ → Transaction → Option Transaction
inc_all [] t = some t
inc_all (n ∷ ns) t = inc_done n t >>= λ u. inc_all ns u

-- What a valid transaction keeps: it is inside its range, which is inside the numbers.
pub record IsInRange (t : Transaction) : Type 0 where
  pub not_over : t.done ≤ t.rng.len
  pub fits : t.rng.beg + t.rng.len < 2 ^ 63

-- The sum of the steps.
abbrev pub sum_of : List ℕ → ℕ
sum_of [] = 0
sum_of (n ∷ ns) = n + sum_of ns

inc_done-some :
    (n : ℕ) (t : Transaction)
    → IsInRange t
    → t.done + n ≤ t.rng.len
    → inc_done n t ≡ some (record t { done = t.done + n })
unfolding inc_done
inc_done-some n t w h =
    let q : u64 (t.done + n) ≡ t.done + n = omega (arith, w.fits) in
    let c : (not (t.done == invalid_value) && leb n (sub64 t.rng.len t.done)) ≡ true =
      ground (arith, w.fits, w.not_over) in
    rw (q, c) refl

inc_done-none :
    (n : ℕ) (t : Transaction) → IsInRange t → t.rng.len < t.done + n → inc_done n t ≡ none
unfolding inc_done
inc_done-none n t w h =
    let c : leb n (sub64 t.rng.len t.done) ≡ false = ground (arith, w.fits, w.not_over) in
    ground (arith, c)

sum_suc : (d n s : ℕ) → d + n + s ≡ d + (n + s)
sum_suc d n s = omega arith

inc_all-some :
    (ns : List ℕ) (t : Transaction)
    → IsInRange t
    → t.done + sum_of ns ≤ t.rng.len
    → inc_all ns t ≡ some (record t { done = t.done + sum_of ns })
unfolding inc_all
inc_all-some [] t w h = let q : t.done + 0 ≡ t.done = omega arith in rw q refl
inc_all-some (n ∷ ns) t w h =
    let u : Transaction = record t { done = t.done + n } in
    rw
      (
        inc_done-some n t w (omega arith),
        inc_all-some ns u (record { not_over = omega arith; fits = w.fits }) (omega arith),
        sum_suc t.done n (sum_of ns),
      )
      refl

inc_all-none :
    (ns : List ℕ) (t : Transaction)
    → IsInRange t
    → t.rng.len < t.done + sum_of ns
    → inc_all ns t ≡ none
unfolding inc_all
inc_all-none [] t w h = absurd (omega (arith, w.not_over))
inc_all-none (n ∷ ns) t w h = elim (Bool-cases (leb (t.done + n) t.rng.len)) [
  | inl l ↦
      let u : Transaction = record t { done = t.done + n } in
      rw (inc_done-some n t w (ground arith))
        (inc_all-none ns u (record { not_over = ground arith; fits = w.fits }) (omega arith))
  | inr f ↦ rw (inc_done-none n t w (ground arith)) refl
]

in_range_getters :
    (t : Transaction) (s : ℕ)
    → IsInRange t
    → t.done + s ≤ t.rng.len
    → (curr_offset (record t { done = t.done + s }) ≡ curr_offset t + s)
      × (remaining_bytes (record t { done = t.done + s }) + s ≡ remaining_bytes t)
      × (valid (record t { done = t.done + s }) ≡ true)
unfolding curr_offset remaining_bytes valid
in_range_getters t s w h = (omega (arith, w.fits), omega (arith, w.fits), ground (arith, w.fits))

-- On a transaction inside its range, a run of steps aborts exactly where their sum goes past the
-- end of the range. Where it does not, the position is moved by the sum, what remains is less by
-- the sum, and the transaction is valid, and finished exactly where the end is reached.
pub inc_all_iff :
    (ns : List ℕ) (t : Transaction)
    → IsInRange t
    → ((t.rng.len < t.done + sum_of ns) × (inc_all ns t ≡ none))
      ⊎ ((t.done + sum_of ns ≤ t.rng.len)
          × (u : Transaction) × (inc_all ns t ≡ some u)
          × (curr_offset u ≡ curr_offset t + sum_of ns)
          × (remaining_bytes u + sum_of ns ≡ remaining_bytes t)
          × (valid u ≡ true)
          × (finished u ≡ (t.done + sum_of ns == t.rng.len)))
unfolding finished
inc_all_iff ns t w = elim (Bool-cases (leb (t.done + sum_of ns) t.rng.len)) [
  | inl l ↦
      let le : t.done + sum_of ns ≤ t.rng.len = ground arith in
      let (a, b, c) = in_range_getters t (sum_of ns) w le in
      inr (le, record t { done = t.done + sum_of ns }, inc_all-some ns t w le, a, b, c, refl)
  | inr f ↦
      let lt : t.rng.len < t.done + sum_of ns = ground arith in inl (lt, inc_all-none ns t w lt)
]
