-- ===== src/AioTaskQueue/Priority.antt =====
-- Who is served when: the tasks at the back come in their order, and one that was pushed to the
-- front, as the aggregate writer does, comes before all of them.
use mathlib.Core.List.{append-nil, append_assoc}
use cache_work.Prelude.{
  ℕ, ◌≡◌, refl, ap, sym, ◌∙◌, inl, inr, true, Bool-cases, some, List, [], ◌∷◌, ◌++◌, arith,
}
use cache_work.AioTaskQueue.{
  AioTaskQueue, EnqueueRes, enqueued, skipped, stopped, PopRes, task, unblocked, waits, is_linked,
  push_front, enqueue, pop, pop_front,
}

-- What the networking threads and the threads of the service do to a queue.
pub data Turn : Type 0 where
  enqueues : ℕ → Turn
  pops : Turn

-- The tasks that were taken in, those that were served, and the queue.
pub record History : Type 0 where
  pub taken : List ℕ
  pub served : List ℕ
  pub left : AioTaskQueue

abbrev pub taken_by : ℕ → EnqueueRes → List ℕ
taken_by t enqueued = t ∷ []
taken_by t skipped = []
taken_by t stopped = []

abbrev pub served_by : PopRes → List ℕ
served_by (task t) = t ∷ []
served_by unblocked = []
served_by waits = []

pub turns : List Turn → AioTaskQueue → History
turns [] q = record { taken = []; served = []; left = q }
turns (enqueues t ∷ cs) q =
    let r = enqueue t q in let h = turns cs r.1 in record h { taken = taken_by t r.0 ++ h.taken }
turns (pops ∷ cs) q =
    let r = pop q in let h = turns cs r.1 in record h { served = served_by r.0 ++ h.served }

enqueue-queue :
    (t : ℕ) (q : AioTaskQueue) → (enqueue t q).1.queue ≡ q.queue ++ taken_by t (enqueue t q).0
unfolding enqueue
enqueue-queue t q = elim (Bool-cases q.working) [
  | inl w ↦ elim (Bool-cases (is_linked t q.queue)) [
    | inl l ↦ simp (w, l, append-nil)
    | inr l ↦ simp (w, l)
  ]
  | inr w ↦ simp (w, append-nil)
]

pop_front-queue :
    (ts : List ℕ) (q : AioTaskQueue)
    → q.queue ≡ ts
    → ts ≡ served_by (pop_front ts q).0 ++ (pop_front ts q).1.queue
unfolding pop_front
pop_front-queue [] q e = sym e
pop_front-queue (t ∷ ts) q e = refl

pop-queue : (q : AioTaskQueue) → q.queue ≡ served_by (pop q).0 ++ (pop q).1.queue
unfolding pop
pop-queue q = elim (Bool-cases q.working) [
  | inl w ↦ simp (w) (pop_front-queue q.queue q refl)
  | inr w ↦ simp (w)
]

-- However enqueues and pops interleave, what was served and then what is left is what waited at
-- the start and then what was taken in, in this order: no task is lost, served twice or
-- overtaken.
pub turns_in_order :
    (cs : List Turn) (q : AioTaskQueue)
    → let h = turns cs q in h.served ++ h.left.queue ≡ q.queue ++ h.taken
unfolding turns
turns_in_order [] q = simp (append-nil)
turns_in_order (enqueues t ∷ cs) q =
    let r = enqueue t q in
    turns_in_order cs r.1
    ∙ ap (λ xs. xs ++ (turns cs r.1).taken) (enqueue-queue t q)
    ∙ append_assoc q.queue _ _
turns_in_order (pops ∷ cs) q =
    let r = pop q in
    append_assoc (served_by r.0) _ _
    ∙ ap (λ xs. served_by r.0 ++ xs) (turns_in_order cs r.1)
    ∙ sym (append_assoc (served_by r.0) _ _)
    ∙ ap (λ xs. xs ++ (turns cs r.1).taken) (sym (pop-queue q))

-- A task that was pushed to the front is served before all others, whatever is enqueued meanwhile.
pub push_front-turns :
    (t : ℕ) (q q' : AioTaskQueue) (cs : List Turn)
    → push_front t q ≡ some (true, q')
    → let h = turns cs q' in h.served ++ h.left.queue ≡ t ∷ (q.queue ++ h.taken)
unfolding push_front
push_front-turns t q q' cs p =
    let e : q'.queue ≡ t ∷ q.queue = ground arith in
    turns_in_order cs q' ∙ ap (λ xs. xs ++ (turns cs q').taken) e
