-- ===== src/AioService/Balance.antt =====
-- The references that the service holds on its tasks.
use cache_work.Prelude.{
  ℕ, ◌+◌, ◌≡◌, refl, ap, sym, subst, ◌∙◌, inl, inr, Bool, true, false, ◌==◌, ==_iff, Bool-cases,
  if◌then◌else◌, Option, some, List, [], ◌∷◌, ◌++◌, arith,
}
use cache_work.Units.{u32}
use cache_work.AioTaskQueue.{
  AioTaskQueue, is_linked, unlink, fetch_add, fetch_sub, push_front, push_back, enqueue, pop,
  pop_front, remove_task, release_all, stop,
}
use cache_work.AioTaskQueue.Order.{
  IsQueue, appended-IsQueue, push_front-IsQueue, pop_front-IsQueue, erased-IsQueue,
}
use cache_work.AioService.{
  AioService, update, intrusive_ptr_add_ref, intrusive_ptr_release, service_stopped, pushed,
  push_front_task, push_task, enqueue_done, enqueue_task, cancelled, cancel_task, popped,
  process_next, processed, tell_all, dispose_all, clear_queue_on_stop,
}

-- How often a task stands in a list.
unfoldable pub count : ℕ → List ℕ → ℕ
count u [] = 0
count u (x ∷ xs) = (if x == u then 1 else 0) + count u xs

-- What the service holds on a task: one reference for its place in the queue, and one for each
-- thread that processes it.
abbrev pub held : ℕ → AioService → ℕ
held u s = count u s.queue.queue + count u s.in_process

-- `users` are the references that others hold.
pub record IsBalanced (users : ℕ → ℕ) (s : AioService) : Type 0 where
  pub ordered : IsQueue s.queue
  pub balanced : (u : ℕ) → s.refs u ≡ u32 (users u + held u s)

-- The counters are off by the references in `extra`.
abbrev pub IsOff : (users : ℕ → ℕ) (extra : List ℕ) → AioService → Type 0
IsOff users extra s = (u : ℕ) → s.refs u ≡ u32 (users u + held u s + count u extra)

abbrev with_queue : AioTaskQueue → AioService → AioService
with_queue q s = record s { queue = q }

abbrev at_back : ℕ → AioTaskQueue → AioTaskQueue
at_back t q = record q { queue = q.queue ++ (t ∷ []); size = fetch_add q.size }

abbrev at_front : ℕ → AioTaskQueue → AioTaskQueue
at_front t q = record q { queue = t ∷ q.queue; size = fetch_add q.size }

module _ (users : ℕ → ℕ) where
  add_ref-IsOff :
      (t : ℕ) (s : AioService) (ts : List ℕ)
      → IsOff users ts s
      → IsOff users (t ∷ ts) (intrusive_ptr_add_ref t s)
  unfolding intrusive_ptr_add_ref update count fetch_add
  add_ref-IsOff t s ts b u = elim (Bool-cases (t == u)) [
    | inl e ↦ let q : t ≡ u = (==_iff t u).0 e in rw e (omega (arith, b t, ap s.refs q, b u))
    | inr e ↦ rw e (omega (arith, b u))
  ]

  release-IsOff :
      (t : ℕ) (s : AioService) (ts : List ℕ)
      → IsOff users (t ∷ ts) s
      → IsOff users ts (intrusive_ptr_release t s)
  unfolding intrusive_ptr_release update count fetch_sub
  release-IsOff t s ts b u = elim (Bool-cases (t == u)) [
    | inl e ↦
        let q : t ≡ u = (==_iff t u).0 e in
        let c : s.refs u ≡ u32 (users u + held u s + (1 + count u ts)) =
          b u
          ∙ ap (λ (x : Bool). u32 (users u + held u s + ((if x then 1 else 0) + count u ts))) e in
        rw e (omega (arith, c, ap s.refs q))
    | inr e ↦
        let c : s.refs u ≡ u32 (users u + held u s + (0 + count u ts)) =
          b u
          ∙ ap (λ (x : Bool). u32 (users u + held u s + ((if x then 1 else 0) + count u ts))) e in
        rw e (omega (arith, c))
  ]

  -- The same counters over another queue or other tasks in process.
  moved :
      (s s' : AioService) (ts ts' : List ℕ)
      → s.refs ≡ s'.refs
      → ((u : ℕ) → held u s + count u ts ≡ held u s' + count u ts')
      → IsOff users ts s
      → IsOff users ts' s'
  moved s s' ts ts' e h b u =
      let q : s.refs u ≡ s'.refs u = ap (λ (f : ℕ → ℕ). f u) e in
      let c = b u in let k = h u in sym q ∙ c ∙ ap u32 (omega (arith, k))

  off : (s : AioService) → IsBalanced users s → IsOff users [] s
  unfolding count
  off s v u = v.balanced u ∙ ap u32 (omega arith)

  on : (s : AioService) → IsQueue s.queue → IsOff users [] s → IsBalanced users s
  unfolding count
  on s q b = record { ordered = q; balanced = λ u. b u ∙ ap u32 (omega arith) }

  release-IsBalanced :
      (t : ℕ) (s : AioService)
      → IsQueue s.queue
      → IsOff users (t ∷ []) s
      → IsBalanced users (intrusive_ptr_release t s)
  unfolding intrusive_ptr_release
  release-IsBalanced t s q b = on _ q (release-IsOff t s [] b)

  count-append : (u t : ℕ) (xs : List ℕ) → count u (xs ++ (t ∷ [])) ≡ count u xs + count u (t ∷ [])
  unfolding count
  count-append u t [] = omega arith
  count-append u t (x ∷ xs) = ground (arith, count-append u t xs)

  count-unlink :
      (u t : ℕ) (xs : List ℕ)
      → is_linked t xs ≡ true
      → count u (unlink t xs) + count u (t ∷ []) ≡ count u xs
  unfolding count is_linked unlink
  count-unlink u t [] h = absurd (cc (h))
  count-unlink u t (x ∷ xs) h = elim (Bool-cases (t == x)) [
    | inl e ↦ let q : t ≡ x = (==_iff t x).0 e in rw e (rw q (omega arith))
    | inr e ↦ let i = count-unlink u t xs (rw e at h) in rw e (omega (arith, i))
  ]

  add_ref-off :
      (t : ℕ) (s : AioService)
      → IsBalanced users s
      → IsOff users (t ∷ []) (intrusive_ptr_add_ref t s)
  add_ref-off t s v = add_ref-IsOff t s [] (off s v)

  -- A task that was taken in, at the back or at the front.
  appended-IsBalanced :
      (t : ℕ) (s : AioService)
      → IsBalanced users s
      → is_linked t s.queue.queue ≡ false
      → IsBalanced users (with_queue (at_back t s.queue) (intrusive_ptr_add_ref t s))
  unfolding intrusive_ptr_add_ref count
  appended-IsBalanced t s v h =
      on (with_queue (at_back t s.queue) (intrusive_ptr_add_ref t s))
        (appended-IsQueue t s.queue v.ordered h)
        (moved (intrusive_ptr_add_ref t s)
          (with_queue (at_back t s.queue) (intrusive_ptr_add_ref t s)) (t ∷ []) [] refl
          (λ u. omega (arith, count-append u t s.queue.queue)) (add_ref-off t s v))

  front-IsBalanced :
      (t : ℕ) (s : AioService)
      → IsBalanced users s
      → is_linked t s.queue.queue ≡ false
      → IsBalanced users (with_queue (at_front t s.queue) (intrusive_ptr_add_ref t s))
  unfolding intrusive_ptr_add_ref count
  front-IsBalanced t s v h =
      on (with_queue (at_front t s.queue) (intrusive_ptr_add_ref t s))
        (push_front-IsQueue t s.queue v.ordered h)
        (moved (intrusive_ptr_add_ref t s)
          (with_queue (at_front t s.queue) (intrusive_ptr_add_ref t s)) (t ∷ []) [] refl
          (λ u. omega arith) (add_ref-off t s v))

  -- A task that was not, told of it or not.
  skipped-IsBalanced :
      (t : ℕ) (s : AioService)
      → IsBalanced users s
      → IsBalanced users (intrusive_ptr_release t (with_queue s.queue (intrusive_ptr_add_ref t s)))
  unfolding intrusive_ptr_add_ref
  skipped-IsBalanced t s v =
      release-IsBalanced t (with_queue s.queue (intrusive_ptr_add_ref t s)) v.ordered
        (add_ref-off t s v)

  refused-IsBalanced :
      (t : ℕ) (s : AioService)
      → IsBalanced users s
      → IsBalanced users (
          intrusive_ptr_release t
            (service_stopped t (with_queue s.queue (intrusive_ptr_add_ref t s))))
  unfolding intrusive_ptr_add_ref service_stopped
  refused-IsBalanced t s v =
      release-IsBalanced t (service_stopped t (with_queue s.queue (intrusive_ptr_add_ref t s)))
        v.ordered (add_ref-off t s v)

  push_front_task-IsBalanced :
      (t : ℕ) (s : AioService)
      → IsBalanced users s
      → is_linked t s.queue.queue ≡ false
      → (s' : AioService) × (push_front_task t s ≡ some s') × IsBalanced users s'
  unfolding push_front_task push_front pushed
  push_front_task-IsBalanced t s v h = elim (Bool-cases s.queue.working) [
    | inl w ↦ (
      with_queue (at_front t s.queue) (intrusive_ptr_add_ref t s),
      simp (w, h),
      front-IsBalanced t s v h,
    )
    | inr w ↦ (
      intrusive_ptr_release t (service_stopped t (with_queue s.queue (intrusive_ptr_add_ref t s))),
      simp (w),
      refused-IsBalanced t s v,
    )
  ]

  push_task-IsBalanced :
      (t : ℕ) (s : AioService)
      → IsBalanced users s
      → is_linked t s.queue.queue ≡ false
      → (s' : AioService) × (push_task t s ≡ some s') × IsBalanced users s'
  unfolding push_task push_back pushed
  push_task-IsBalanced t s v h = elim (Bool-cases s.queue.working) [
    | inl w ↦ (
      with_queue (at_back t s.queue) (intrusive_ptr_add_ref t s),
      simp (w, h),
      appended-IsBalanced t s v h,
    )
    | inr w ↦ (
      intrusive_ptr_release t (service_stopped t (with_queue s.queue (intrusive_ptr_add_ref t s))),
      simp (w),
      refused-IsBalanced t s v,
    )
  ]

  enqueue_task-IsBalanced :
      (t : ℕ) (s : AioService) → IsBalanced users s → IsBalanced users (enqueue_task t s)
  unfolding enqueue_task enqueue enqueue_done
  enqueue_task-IsBalanced t s v = elim (Bool-cases s.queue.working) [
    | inl w ↦ elim (Bool-cases (is_linked t s.queue.queue)) [
      | inl l ↦ simp (w, l) (skipped-IsBalanced t s v)
      | inr l ↦
          let e : enqueue_task t s ≡ with_queue (at_back t s.queue) (intrusive_ptr_add_ref t s) =
            simp (w, l) in
          subst (IsBalanced users) (sym e) (appended-IsBalanced t s v l)
    ]
    | inr w ↦ simp (w) (refused-IsBalanced t s v)
  ]

  cancel_task-IsBalanced :
      (t : ℕ) (s : AioService) → IsBalanced users s → IsBalanced users (cancel_task t s).1
  unfolding cancel_task remove_task cancelled count
  cancel_task-IsBalanced t s v = elim (Bool-cases (is_linked t s.queue.queue)) [
    | inl l ↦
        let q : AioTaskQueue = record s.queue {
          queue = unlink t s.queue.queue;
          size = fetch_sub s.queue.size;
        } in
        let e : cancel_task t s ≡ (true, intrusive_ptr_release t (with_queue q s)) = simp (l) in
        subst (λ r. IsBalanced users r.1) (sym e)
          (release-IsBalanced t (with_queue q s) (erased-IsQueue t s.queue v.ordered l) (
            moved s (with_queue q s) [] (t ∷ []) refl
              (λ u. omega (arith, count-unlink u t s.queue.queue l)) (off s v)))
    | inr l ↦ simp (l) v
  ]

  popped-IsBalanced :
      (s : AioService)
      → IsBalanced users s
      → (ts : List ℕ) → s.queue.queue ≡ ts
      → IsQueue (pop_front ts s.queue).1
      → IsBalanced users (popped s (pop_front ts s.queue))
  unfolding pop_front popped count
  popped-IsBalanced s v [] e o = v
  popped-IsBalanced s v (t ∷ ts) e o =
      let s' : AioService = record s {
        queue = record s.queue { queue = ts; size = fetch_sub s.queue.size };
        in_process = t ∷ s.in_process;
      } in
      on s' o (moved s s' [] [] refl (λ u. omega (arith, ap (count u) e)) (off s v))

  process_next-IsBalanced :
      (s : AioService) → IsBalanced users s → IsBalanced users (process_next s)
  unfolding process_next pop popped
  process_next-IsBalanced s v = elim (Bool-cases s.queue.working) [
    | inl w ↦
        let e : process_next s ≡ popped s (pop_front s.queue.queue s.queue) = simp (w) in
        subst (IsBalanced users) (sym e) (
          popped-IsBalanced s v s.queue.queue refl
            (pop_front-IsQueue s.queue.queue s.queue v.ordered refl))
    | inr w ↦ let e : process_next s ≡ s = simp (w) in subst (IsBalanced users) (sym e) v
  ]

  processed-IsBalanced :
      (t : ℕ) (s : AioService)
      → IsBalanced users s
      → is_linked t s.in_process ≡ true
      → IsBalanced users (processed t s)
  unfolding processed count
  processed-IsBalanced t s v h =
      let s' : AioService = record s { in_process = unlink t s.in_process } in
      release-IsBalanced t s' v.ordered (
        moved s s' [] (t ∷ []) refl (λ u. omega (arith, count-unlink u t s.in_process h)) (off s v))

  dispose_all-IsBalanced :
      (ts : List ℕ) (s : AioService)
      → IsQueue s.queue
      → IsOff users ts s
      → IsBalanced users (dispose_all ts s)
  unfolding dispose_all intrusive_ptr_release
  dispose_all-IsBalanced [] s q b = on s q b
  dispose_all-IsBalanced (t ∷ ts) s q b =
      dispose_all-IsBalanced ts (intrusive_ptr_release t s) q (release-IsOff t s ts b)

  tell_all-eq :
      (ts : List ℕ) (s : AioService) → (told : List ℕ) × (tell_all ts s ≡ record s { told = told })
  unfolding tell_all service_stopped
  tell_all-eq [] s = (s.told, refl)
  tell_all-eq (t ∷ ts) s = tell_all-eq ts (service_stopped t s)

  clear_queue_on_stop-IsBalanced :
      (s : AioService) → IsBalanced users s → IsBalanced users (clear_queue_on_stop s)
  unfolding clear_queue_on_stop release_all count
  clear_queue_on_stop-IsBalanced s v =
      let q : AioTaskQueue = record s.queue { queue = []; size = 0 } in
      let (told, e) = tell_all-eq s.queue.queue (with_queue q s) in
      let s' : AioService = record s { queue = q; told = told } in
      rw e (
        dispose_all-IsBalanced s.queue.queue s' (record { once = refl; counted = refl })
          (moved s s' [] s.queue.queue refl (λ u. omega arith) (off s v)))

-- The calls of the threads. A push wants a task that is not linked; a task that is done was in
-- process.
pub data Call : Type 0 where
  pushes_front : ℕ → Call
  pushes : ℕ → Call
  enqueues : ℕ → Call
  cancels : ℕ → Call
  takes : Call
  is_done : ℕ → Call
  stops : Call
  clears : Call

unfoldable pub call : Call → AioService → Option AioService
call (pushes_front t) s = push_front_task t s
call (pushes t) s = push_task t s
call (enqueues t) s = some (enqueue_task t s)
call (cancels t) s = some (cancel_task t s).1
call takes s = some (process_next s)
call (is_done t) s = some (processed t s)
call stops s = some (record s { queue = stop s.queue })
call clears s = some (clear_queue_on_stop s)

abbrev pub IsAllowed : Call → AioService → Type 0
IsAllowed (pushes_front t) s = is_linked t s.queue.queue ≡ false
IsAllowed (pushes t) s = is_linked t s.queue.queue ≡ false
IsAllowed (is_done t) s = is_linked t s.in_process ≡ true
IsAllowed c s = true ≡ true

-- No call of the service aborts, where pushed tasks are not linked and ended ones were in
-- process, and behind each call the queue holds no task twice, its size is true and, modulo 2 ^
-- 32, so are the counters of references: a counter is what others hold, one for a place in the
-- queue and one for each thread that processes the task.
pub call-IsBalanced :
    (users : ℕ → ℕ) (s : AioService) (c : Call)
    → IsBalanced users s
    → IsAllowed c s
    → (s' : AioService) × (call c s ≡ some s') × IsBalanced users s'
unfolding call stop
call-IsBalanced users s (pushes_front t) v a = push_front_task-IsBalanced users t s v a
call-IsBalanced users s (pushes t) v a = push_task-IsBalanced users t s v a
call-IsBalanced users s (enqueues t) v a = (_, refl, enqueue_task-IsBalanced users t s v)
call-IsBalanced users s (cancels t) v a = (_, refl, cancel_task-IsBalanced users t s v)
call-IsBalanced users s takes v a = (_, refl, process_next-IsBalanced users s v)
call-IsBalanced users s (is_done t) v a = (_, refl, processed-IsBalanced users t s v a)
call-IsBalanced users s stops v a = (
  _,
  refl,
  record {
    ordered = record { once = v.ordered.once; counted = v.ordered.counted };
    balanced = v.balanced;
  },
)
call-IsBalanced users s clears v a = (_, refl, clear_queue_on_stop-IsBalanced users s v)
