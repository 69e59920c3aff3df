-- ===== src/AioService.antt =====
-- xproxy-beta/cache/aio_service.cpp and the reference counter of aio_task.h: a queue of the service,
-- with the tasks that its threads process. A task is named by its address. The counters are
-- atomic_uint; a counter that falls to 0 deletes its task. What a task does when it is processed
-- is left to the task: it begins and ends, and other calls come between.
pub mod Balance
use cache_work.Prelude.{
  ℕ, zero, suc, ◌+◌, Bool, true, false, ◌==◌, if◌then◌else◌, Option, none, some, ◌>>=◌, List, [],
  ◌∷◌, ◌++◌,
}
use cache_work.AioTaskQueue.{
  AioTaskQueue, EnqueueRes, enqueued, skipped, stopped, PopRes, task, unblocked, waits, unlink,
  fetch_add, fetch_sub, push_front, push_back, enqueue, pop, remove_task, release_all,
}

-- `told` are the tasks whose service_stopped was called.
pub record AioService : Type 0 where
  pub queue : AioTaskQueue
  pub refs : ℕ → ℕ
  pub in_process : List ℕ
  pub told : List ℕ
  pub deleted : List ℕ

unfoldable pub update : (ℕ → ℕ) → ℕ → ℕ → ℕ → ℕ
update f t n u = if t == u then n else f u

unfoldable pub intrusive_ptr_add_ref : ℕ → AioService → AioService
intrusive_ptr_add_ref t s = record s { refs = update s.refs t (fetch_add (s.refs t)) }

unfoldable pub intrusive_ptr_release : ℕ → AioService → AioService
intrusive_ptr_release t s =
    let n : ℕ = fetch_sub (s.refs t) in
    record s { refs = update s.refs t n; deleted = if n == 0 then t ∷ s.deleted else s.deleted }

unfoldable pub service_stopped : ℕ → AioService → AioService
service_stopped t s = record s { told = s.told ++ (t ∷ []) }

-- The end of push_front_task and push_task.
unfoldable pub pushed : ℕ → AioService → Bool × AioTaskQueue → AioService
pushed t s (true, q) = record s { queue = q }
pushed t s (false, q) = intrusive_ptr_release t (service_stopped t (record s { queue = q }))

unfoldable pub push_front_task : ℕ → AioService → Option AioService
push_front_task t s = push_front t s.queue >>= λ r. some (pushed t (intrusive_ptr_add_ref t s) r)

unfoldable pub push_task : ℕ → AioService → Option AioService
push_task t s = push_back t s.queue >>= λ r. some (pushed t (intrusive_ptr_add_ref t s) r)

unfoldable pub enqueue_done : ℕ → AioService → EnqueueRes × AioTaskQueue → AioService
enqueue_done t s (stopped, q) = intrusive_ptr_release t (service_stopped t (record s { queue = q }))
enqueue_done t s (skipped, q) = intrusive_ptr_release t (record s { queue = q })
enqueue_done t s (enqueued, q) = record s { queue = q }

unfoldable pub enqueue_task : ℕ → AioService → AioService
enqueue_task t s = enqueue_done t (intrusive_ptr_add_ref t s) (enqueue t s.queue)

unfoldable pub cancelled : AioService → Option ℕ × AioTaskQueue → Bool × AioService
cancelled s (some t, q) = (true, intrusive_ptr_release t (record s { queue = q }))
cancelled s (none, q) = (false, record s { queue = q })

unfoldable pub cancel_task : ℕ → AioService → Bool × AioService
cancel_task t s = cancelled s (remove_task t s.queue)

-- The head of the loop of process_queue, and what it does when the task is done.
unfoldable pub popped : AioService → PopRes × AioTaskQueue → AioService
popped s (task t, q) = record s { queue = q; in_process = t ∷ s.in_process }
popped s (unblocked, q) = record s { queue = q }
popped s (waits, q) = record s { queue = q }

unfoldable pub process_next : AioService → AioService
process_next s = popped s (pop s.queue)

unfoldable pub processed : ℕ → AioService → AioService
processed t s = intrusive_ptr_release t (record s { in_process = unlink t s.in_process })

unfoldable pub tell_all : List ℕ → AioService → AioService
tell_all [] s = s
tell_all (t ∷ ts) s = tell_all ts (service_stopped t s)

unfoldable pub dispose_all : List ℕ → AioService → AioService
dispose_all [] s = s
dispose_all (t ∷ ts) s = dispose_all ts (intrusive_ptr_release t s)

unfoldable pub clear_queue_on_stop : AioService → AioService
clear_queue_on_stop s =
    let r = release_all s.queue in dispose_all r.0 (tell_all r.0 (record s { queue = r.1 }))
