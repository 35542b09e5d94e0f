-- ===== src/TaskPool/Conservation.antt =====
-- No task is lost, and no wake-up: the invariant of the pool and its workers.
use image_proxy.Base.{
  ℕ, ◌+◌, ◌≡◌, refl, sym, subst, inl, inr, Bool, true, false, some, List, [], ◌∷◌, ◌++◌, arith,
  if◌then◌else◌, Bool-cases, Option-cases, get_elem?, set,
}
use image_proxy.TaskPool.{
  Task, Worker, at_top, waiting, woken, got, rendered, sending, ended, System, Action, call_init,
  call_add, call_stop, call_join, work, spurious, new_pool, worker_step, wake, step, run, work_at,
  wake_at,
}
use image_proxy.TaskPool.Places.{
  All-set, All-get, Fits, count, busy, answered, answered-append, busy-set,
}
use image_proxy.TaskPool.Validity.{
  IsValid, init_pool-IsValid, init-IsValid, add_task-IsValid, request_stop-IsValid, join-IsValid,
  move-IsValid, take_task-IsValid,
}

-- A worker behind `NextTask`: with a task it renders, without it ends.
got-IsValid :
    (s : System) (i : ℕ) (t : Task) (exit throws : Bool)
    → IsValid s
    → get_elem? s.workers i ≡ some (got t exit)
    → IsValid (worker_step s i (got t exit) throws)
unfolding worker_step
got-IsValid s i t true throws v e =
    let fit : Fits s.tasks s.exit_requested (got t true) =
      All-get _ s.workers i (got t true) v.fits e in
    let shape : worker_step s i (got t true) throws ≡ record s { workers = set s.workers i ended } =
      ground arith in
    subst IsValid (sym shape)
      (move-IsValid s i (got t true) ended v e (fit.0 refl) (λ q f. absurd (cc (q, fit.0 refl))))
got-IsValid s i t false throws v e =
    let fit : Fits s.tasks s.exit_requested (got t false) =
      All-get _ s.workers i (got t false) v.fits e in
    rw (fit.1 refl) (
      move-IsValid s i (got t false) (rendered t (if throws then 500 else 200)) v e tt
        (λ q f. refl))

rendered-IsValid :
    (s : System) (i : ℕ) (t : Task) (code : ℕ) (throws : Bool)
    → IsValid s
    → get_elem? s.workers i ≡ some (rendered t code)
    → IsValid (worker_step s i (rendered t code) throws)
unfolding worker_step
rendered-IsValid s i t code throws v e = elim (Bool-cases s.exit_requested) [
  | inl x ↦
      let shape : worker_step s i (rendered t code) throws
          ≡ record s { workers = set s.workers i ended } =
        rw x refl in
      subst IsValid (sym shape)
        (move-IsValid s i (rendered t code) ended v e x (λ q f. absurd (cc (q, x))))
  | inr x ↦
      let shape : worker_step s i (rendered t code) throws
          ≡ record s { workers = set s.workers i (sending t code) } =
        rw x refl in
      subst IsValid (sym shape)
        (move-IsValid s i (rendered t code) (sending t code) v e tt (λ q f. refl))
]

-- The call of `SendResponse` hands the worker's task over.
sending-IsValid :
    (s : System) (i : ℕ) (t : Task) (code : ℕ) (throws : Bool)
    → IsValid s
    → get_elem? s.workers i ≡ some (sending t code)
    → IsValid (worker_step s i (sending t code) throws)
unfolding worker_step
sending-IsValid s i t code throws v e = record {
  in_order = v.in_order;
  are_tasks = v.are_tasks;
  fits = All-set _ s.workers i at_top v.fits tt;
  counted = λ q f. omega (
    arith,
    v.counted q f,
    busy-set f s.workers i (sending t code) at_top e,
    answered-append f s.responses ((t, code) ∷ []),
  );
}

worker_step-IsValid :
    (s : System) (i : ℕ) (w : Worker) (throws : Bool)
    → IsValid s
    → get_elem? s.workers i ≡ some w
    → IsValid (worker_step s i w throws)
unfolding worker_step
worker_step-IsValid s i at_top throws v e = take_task-IsValid s i at_top v e (λ f. refl)
worker_step-IsValid s i waiting throws v e = v
worker_step-IsValid s i woken throws v e = take_task-IsValid s i woken v e (λ f. refl)
worker_step-IsValid s i (got t exit) throws v e = got-IsValid s i t exit throws v e
worker_step-IsValid s i (rendered t code) throws v e = rendered-IsValid s i t code throws v e
worker_step-IsValid s i (sending t code) throws v e = sending-IsValid s i t code throws v e
worker_step-IsValid s i ended throws v e = v

wake-IsValid :
    (s : System) (i : ℕ) (w : Worker)
    → IsValid s
    → get_elem? s.workers i ≡ some w
    → IsValid (wake s i w)
unfolding wake
wake-IsValid s i at_top v e = v
wake-IsValid s i waiting v e = move-IsValid s i waiting woken v e tt (λ q f. refl)
wake-IsValid s i woken v e = v
wake-IsValid s i (got t x) v e = v
wake-IsValid s i (rendered t c) v e = v
wake-IsValid s i (sending t c) v e = v
wake-IsValid s i ended v e = v

pub step-IsValid : (s : System) (a : Action) → IsValid s → IsValid (step s a)
unfolding step work_at wake_at
step-IsValid s (call_init n) v = init-IsValid s n v
step-IsValid s (call_add t) v = add_task-IsValid s t v
step-IsValid s call_stop v = request_stop-IsValid s v
step-IsValid s call_join v = join-IsValid s v
step-IsValid s (work i throws) v = elim (Option-cases (get_elem? s.workers i)) [
  | inl e ↦ subst (λ o. IsValid (work_at s i o throws)) (sym e) v
  | inr (w, e) ↦
      subst (λ o. IsValid (work_at s i o throws)) (sym e) (worker_step-IsValid s i w throws v e)
]
step-IsValid s (spurious i) v = elim (Option-cases (get_elem? s.workers i)) [
  | inl e ↦ subst (λ o. IsValid (wake_at s i o)) (sym e) v
  | inr (w, e) ↦ subst (λ o. IsValid (wake_at s i o)) (sym e) (wake-IsValid s i w v e)
]

pub run-IsValid : (s : System) (schedule : List Action) → IsValid s → IsValid (run s schedule)
unfolding run
run-IsValid s [] v = v
run-IsValid s (a ∷ rest) v = run-IsValid (step s a) rest (step-IsValid s a v)

-- Whatever the calls and however the threads' steps interleave, the tasks leave the queue in the
-- order in which `AddTask` took them, none of them twice and none passed over.
pub run-in_order :
    (schedule : List Action)
    → (run new_pool schedule).removed ++ (run new_pool schedule).tasks
      ≡ (run new_pool schedule).accepted
run-in_order schedule = (run-IsValid new_pool schedule init_pool-IsValid).in_order

-- Whatever the calls and the interleaving, while no stop is requested every task that `AddTask` took
-- is, as often as it was taken, in the queue, held by a worker, or answered by `SendResponse`: so
-- none is lost, and none is answered twice. "As often" is said by counting with any test on tasks.
pub run-conserves :
    (schedule : List Action) (f : Task → Bool)
    → (run new_pool schedule).exit_requested ≡ false
    → count f (run new_pool schedule).accepted
      ≡ count f (run new_pool schedule).tasks
        + busy f (run new_pool schedule).workers
        + answered f (run new_pool schedule).responses
run-conserves schedule f q = (run-IsValid new_pool schedule init_pool-IsValid).counted q f

-- Whatever the calls and the interleaving, a worker is in `wait` only while the queue is empty and
-- no stop is requested: no wake-up is lost.
pub run-wakes :
    (schedule : List Action) (i : ℕ)
    → get_elem? (run new_pool schedule).workers i ≡ some waiting
    → ((run new_pool schedule).tasks ≡ []) × ((run new_pool schedule).exit_requested ≡ false)
run-wakes schedule i e =
    All-get _ _ i waiting (run-IsValid new_pool schedule init_pool-IsValid).fits e
