-- ===== src/AioTaskQueue/Order.antt =====
-- The order and the counter of the queue.
use cache_work.Prelude.{
  ℕ, ◌+◌, ◌≡◌, refl, ap, sym, subst, ◌∙◌, inl, inr, true, false, ◌||◌, ◌==◌, Bool-cases, List, [],
  ◌∷◌, ◌++◌, length, arith,
}
use cache_work.Units.{u32}
use cache_work.AioTaskQueue.{AioTaskQueue, is_linked, unlink, fetch_add, fetch_sub, pop_front}

-- A task stands in the queue at most once.
abbrev pub IsNodup : List ℕ → Type 0
IsNodup [] = true ≡ true
IsNodup (x ∷ xs) = (is_linked x xs ≡ false) × IsNodup xs

pub record IsQueue (q : AioTaskQueue) : Type 0 where
  pub once : IsNodup q.queue
  pub counted : q.size ≡ u32 (length q.queue)

is_linked-append :
    (t u : ℕ) (xs : List ℕ) → is_linked t (xs ++ (u ∷ [])) ≡ (is_linked t xs || (t == u))
unfolding is_linked
is_linked-append t u [] = ground arith
is_linked-append t u (x ∷ xs) = ground (arith, is_linked-append t u xs)

==_comm : (a b : ℕ) → (a == b) ≡ (b == a)
==_comm a b = ground arith

IsNodup-append :
    (t : ℕ) (xs : List ℕ) → IsNodup xs → is_linked t xs ≡ false → IsNodup (xs ++ (t ∷ []))
unfolding is_linked
IsNodup-append t [] n h = (refl, refl)
IsNodup-append t (x ∷ xs) n h =
    (ground (arith, is_linked-append x t xs, ==_comm t x), IsNodup-append t xs n.1 (ground arith))

is_linked-unlink :
    (t u : ℕ) (xs : List ℕ) → is_linked u xs ≡ false → is_linked u (unlink t xs) ≡ false
unfolding is_linked unlink
is_linked-unlink t u [] h = refl
is_linked-unlink t u (x ∷ xs) h = ground (arith, is_linked-unlink t u xs)

IsNodup-unlink : (t : ℕ) (xs : List ℕ) → IsNodup xs → IsNodup (unlink t xs)
unfolding unlink
IsNodup-unlink t [] n = refl
IsNodup-unlink t (x ∷ xs) n = elim (Bool-cases (t == x)) [
  | inl e ↦ rw e n.1
  | inr e ↦ rw e (is_linked-unlink t x xs n.0, IsNodup-unlink t xs n.1)
]

length-unlink : (t : ℕ) (xs : List ℕ) → is_linked t xs ≡ true → length (unlink t xs) + 1 ≡ length xs
unfolding is_linked unlink
length-unlink t [] h = absurd (cc (h))
length-unlink t (x ∷ xs) h = ground (arith, length-unlink t xs)

unlink_unlinked : (t : ℕ) (xs : List ℕ) → is_linked t xs ≡ false → unlink t xs ≡ xs
unfolding is_linked unlink
unlink_unlinked t [] h = refl
unlink_unlinked t (x ∷ xs) h = ground (arith, unlink_unlinked t xs)

length-append : (t : ℕ) (xs : List ℕ) → length (xs ++ (t ∷ [])) ≡ length xs + 1
length-append t [] = refl
length-append t (x ∷ xs) = omega (arith, length-append t xs)

fetch_sub-counted : (n : ℕ) → fetch_sub (u32 (n + 1)) ≡ u32 n
unfolding fetch_sub
fetch_sub-counted n = omega arith

fetch_add-counted : (n : ℕ) → fetch_add (u32 n) ≡ u32 (n + 1)
unfolding fetch_add
fetch_add-counted n = omega arith

pub appended-IsQueue :
    (t : ℕ) (q : AioTaskQueue)
    → IsQueue q
    → is_linked t q.queue ≡ false
    → IsQueue (record q { queue = q.queue ++ (t ∷ []); size = fetch_add q.size })
appended-IsQueue t q v h = record {
  once = IsNodup-append t q.queue v.once h;
  counted =
      ap fetch_add v.counted
      ∙ fetch_add-counted (length q.queue)
      ∙ ap u32 (sym (length-append t q.queue));
}

pub push_front-IsQueue :
    (t : ℕ) (q : AioTaskQueue)
    → IsQueue q
    → is_linked t q.queue ≡ false
    → IsQueue (record q { queue = t ∷ q.queue; size = fetch_add q.size })
push_front-IsQueue t q v h = record {
  once = (h, v.once);
  counted = ap fetch_add v.counted ∙ fetch_add-counted (length q.queue) ∙ ap u32 (omega arith);
}

pub pop_front-IsQueue :
    (ts : List ℕ) (q : AioTaskQueue) → IsQueue q → q.queue ≡ ts → IsQueue (pop_front ts q).1
unfolding pop_front
pop_front-IsQueue [] q v e = v
pop_front-IsQueue (t ∷ ts) q v e = record {
  once = (subst IsNodup e v.once).1;
  counted =
      ap fetch_sub (v.counted ∙ ap (λ xs. u32 (length xs)) e)
      ∙ ap fetch_sub (ap u32 (omega arith))
      ∙ fetch_sub-counted (length ts);
}

pub erased-IsQueue :
    (t : ℕ) (q : AioTaskQueue)
    → IsQueue q
    → is_linked t q.queue ≡ true
    → IsQueue (record q { queue = unlink t q.queue; size = fetch_sub q.size })
erased-IsQueue t q v l = record {
  once = IsNodup-unlink t q.queue v.once;
  counted =
      ap fetch_sub (v.counted ∙ ap u32 (sym (length-unlink t q.queue l)))
      ∙ fetch_sub-counted (length (unlink t q.queue));
}
