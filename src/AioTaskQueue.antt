-- ===== src/AioTaskQueue.antt =====
-- xproxy-beta/cache/aio_task_queue.cpp: the queue of the tasks of a volume. A task is named by its
-- address. Each operation holds the mutex and is one step; a pop that has to wait is the answer
-- `waits`, and is tried again when it is notified. The hook of a task links it in this queue or
-- nowhere. `none` is the assertion of boost::intrusive on a task that is linked already.
pub mod Order
pub mod Priority
use cache_work.Prelude.{
  ℕ, zero, suc, ◌+◌, ◌*◌, ◌%◌, ◌^◌, ◌-◌, Bool, true, false, not, ◌&&◌, ◌||◌, ◌==◌, if◌then◌else◌,
  Option, none, some, ◌>>=◌, List, [], ◌∷◌, ◌++◌,
}
use cache_work.Units.{u32}

pub record AioTaskQueue : Type 0 where
  pub queue : List ℕ
  pub size : ℕ
  pub working : Bool

pub data EnqueueRes : Type 0 where
  enqueued : EnqueueRes
  skipped : EnqueueRes
  stopped : EnqueueRes

pub data PopRes : Type 0 where
  task : ℕ → PopRes
  unblocked : PopRes
  waits : PopRes

unfoldable pub new_queue : AioTaskQueue
new_queue = record { queue = []; size = 0; working = true }

unfoldable pub is_linked : ℕ → List ℕ → Bool
is_linked t [] = false
is_linked t (x ∷ xs) = (t == x) || is_linked t xs

unfoldable pub unlink : ℕ → List ℕ → List ℕ
unlink t [] = []
unlink t (x ∷ xs) = if t == x then xs else x ∷ unlink t xs

-- fetch_add and fetch_sub on an atomic_uint.
unfoldable pub fetch_add : ℕ → ℕ
fetch_add n = u32 (n + 1)

unfoldable pub fetch_sub : ℕ → ℕ
fetch_sub n = u32 (n + (2 ^ 32 - 1))

unfoldable pub push_front : ℕ → AioTaskQueue → Option (Bool × AioTaskQueue)
push_front t q =
    if not q.working
    then some (false, q)
    else if is_linked t q.queue
    then none
    else some (true, record q { queue = t ∷ q.queue; size = fetch_add q.size })

unfoldable pub push_back : ℕ → AioTaskQueue → Option (Bool × AioTaskQueue)
push_back t q =
    if not q.working
    then some (false, q)
    else if is_linked t q.queue
    then none
    else some (true, record q { queue = q.queue ++ (t ∷ []); size = fetch_add q.size })

unfoldable pub enqueue : ℕ → AioTaskQueue → EnqueueRes × AioTaskQueue
enqueue t q =
    if not q.working
    then (stopped, q)
    else if is_linked t q.queue
    then (skipped, q)
    else (enqueued, record q { queue = q.queue ++ (t ∷ []); size = fetch_add q.size })

-- Behind the wait: where the queue is working, it is not empty.
unfoldable pub pop_front : List ℕ → AioTaskQueue → PopRes × AioTaskQueue
pop_front [] q = (waits, q)
pop_front (t ∷ ts) q = (task t, record q { queue = ts; size = fetch_sub q.size })

unfoldable pub pop : AioTaskQueue → PopRes × AioTaskQueue
pop q = if q.working then pop_front q.queue q else (unblocked, q)

unfoldable pub remove_task : ℕ → AioTaskQueue → Option ℕ × AioTaskQueue
remove_task t q =
    if is_linked t q.queue
    then (some t, record q { queue = unlink t q.queue; size = fetch_sub q.size })
    else (none, q)

unfoldable pub stop : AioTaskQueue → AioTaskQueue
stop q = record q { working = false }

unfoldable pub release_all : AioTaskQueue → List ℕ × AioTaskQueue
release_all q = (q.queue, record q { queue = []; size = 0 })
