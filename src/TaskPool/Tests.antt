-- ===== src/TaskPool/Tests.antt =====
-- Concrete runs of the pool.
use image_proxy.Base.{
  ℕ, ◌+◌, ◌≡◌, refl, Bool, true, false, some, List, [], ◌∷◌, ◌++◌, arith, length,
}
use image_proxy.TaskPool.{
  Task, at_top, sending, ended, System, Action, call_init, call_add, call_stop, call_join, work,
  is_null, is_empty_task, new_pool, init, next_task, notify_all, add_task, request_stop, all_ended,
  join, take_task, worker_step, work_at, step, run,
}
use image_proxy.TaskPool.Places.{count, busy, answered}
use image_proxy.TaskPool.Conservation.{run-in_order, run-conserves, run-wakes}
use image_proxy.TaskPool.Joining.{stop-joins, three_each}
use image_proxy.TaskPool.Stopping.{stop-last_responses, leaving}

abbrev page_task : ℕ → Task
page_task n = record { connection = some n; page = some n; out = some n }

-- Two workers; the first waits, is woken by a task and answers it; the second takes the next.
abbrev some_calls : List Action
some_calls =
    call_init 2
    ∷ work 0 false
    ∷ call_add (page_task 1)
    ∷ call_add (page_task 2)
    ∷ work 0 false
    ∷ work 1 false
    ∷ work 0 true
    ∷ work 0 false
    ∷ work 0 false
    ∷ work 1 false
    ∷ work 0 false
    ∷ []

first_answered : (run new_pool some_calls).responses ≡ (page_task 1, 500) ∷ []
unfolding run step init add_task work_at worker_step take_task next_task is_empty_task is_null
    notify_all
first_answered = refl

-- After `Stop` and `Init` a task is taken, and it stays with no response.
abbrev restarted : List Action
restarted =
    call_stop
    ∷ work 0 false
    ∷ work 0 false
    ∷ call_join
    ∷ call_init 1
    ∷ call_add (page_task 3)
    ∷ work 1 false
    ∷ work 1 false
    ∷ []

abbrev one_thread : System
one_thread = record new_pool { threads = 1; workers = at_top ∷ [] }

taken_unanswered :
    ((run one_thread restarted).accepted ≡ page_task 3 ∷ [])
    × ((run one_thread restarted).responses ≡ [])
    × ((run one_thread restarted).workers ≡ ended ∷ ended ∷ [])
unfolding run step init add_task work_at worker_step take_task next_task is_empty_task is_null
    notify_all request_stop join all_ended
taken_unanswered = (refl, refl, refl)

run-in_order_run :
    (run new_pool some_calls).removed ++ (run new_pool some_calls).tasks
    ≡ (run new_pool some_calls).accepted
run-in_order_run = run-in_order some_calls

run-conserves_example :
    count (λ t. true) (run new_pool some_calls).accepted
    ≡ count (λ t. true) (run new_pool some_calls).tasks
      + busy (λ t. true) (run new_pool some_calls).workers
      + answered (λ t. true) (run new_pool some_calls).responses
unfolding run step init add_task work_at worker_step take_task next_task is_empty_task is_null
    notify_all
run-conserves_example = run-conserves some_calls (λ t. true) refl

run-wakes_example :
    ((run new_pool some_calls).tasks ≡ []) × ((run new_pool some_calls).exit_requested ≡ false)
unfolding run step init add_task work_at worker_step take_task next_task is_empty_task is_null
    notify_all
run-wakes_example = run-wakes some_calls 0 refl

-- A worker in front of `SendResponse`.
abbrev one_sender : System
one_sender = record new_pool { threads = 1; workers = sending (page_task 1) 200 ∷ [] }

stop-last_responses_example :
    let s' = run (request_stop one_sender) restarted in
    (s'.exit_requested ≡ true)
    × (more : List (Task × ℕ)) × (s'.responses ≡ [] ++ more)
    × ((f : Task → Bool) → answered f more + leaving f s'.workers ≡ leaving f one_sender.workers)
stop-last_responses_example =
    stop-last_responses one_sender restarted (λ e. absurd (omega (arith, e)))

-- It sends after the call of `Stop`.
late_response : (run one_sender restarted).responses ≡ (page_task 1, 200) ∷ []
unfolding run step init add_task work_at worker_step take_task next_task is_empty_task is_null
    notify_all request_stop join all_ended
late_response = refl

stop-joins_example :
    let s = request_stop (run new_pool some_calls) in
    let s' = run s (three_each (λ k. (false, true, false)) (length s.workers)) in
    (all_ended s'.workers ≡ true) × ((join s').threads ≡ 0)
unfolding run step init add_task work_at worker_step take_task next_task is_empty_task is_null
    notify_all
stop-joins_example =
    stop-joins some_calls (λ k. (false, true, false)) (λ e. absurd (omega (arith, e)))
