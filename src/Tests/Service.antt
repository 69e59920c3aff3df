-- ===== src/Tests/Service.antt =====
-- The theorems on the queue of the tasks and on the service, with three tasks.
use cache_work.Prelude.{◌≡◌, refl, true, some, [], ◌∷◌, ◌++◌, arith}
use cache_work.AioTaskQueue.{AioTaskQueue, fetch_add}
use cache_work.AioTaskQueue.Priority.{enqueues, pops, turns, turns_in_order}
use cache_work.AioService.{AioService}
use cache_work.AioService.Balance.{IsBalanced, cancels, call, call-IsBalanced, count}

abbrev two_tasks : AioTaskQueue
two_tasks = record { queue = 4 ∷ 9 ∷ []; size = 2; working = true }

turns_in_order_example :
    let h = turns (enqueues 5 ∷ pops ∷ enqueues 9 ∷ pops ∷ []) two_tasks in
    h.served ++ h.left.queue ≡ (4 ∷ 9 ∷ []) ++ h.taken
turns_in_order_example = turns_in_order (enqueues 5 ∷ pops ∷ enqueues 9 ∷ pops ∷ []) two_tasks

-- The counters where task 5 is processed and nobody else holds a task.
abbrev busy : AioService
busy = record {
  queue = two_tasks;
  refs = λ u. count u (4 ∷ 9 ∷ 5 ∷ []);
  in_process = 5 ∷ [];
  told = [];
  deleted = [];
}

busy-IsBalanced : IsBalanced (λ u. 0) busy
unfolding count cache_work.AioTaskQueue.is_linked
busy-IsBalanced = record {
  ordered = record { once = (refl, (refl, refl)); counted = refl };
  balanced = λ u. ground arith;
}

call-IsBalanced_example :
    (s' : AioService) × (call (cancels 9) busy ≡ some s') × IsBalanced (λ u. 0) s'
call-IsBalanced_example = call-IsBalanced (λ u. 0) busy (cancels 9) busy-IsBalanced refl
