-- ===== src/TaskPool/Stopping.antt =====
-- After a request to stop: which responses are still sent.
use image_proxy.Base.{
  ℕ, zero, suc, ◌+◌, ◌≡◌, refl, sym, ap, subst, ◌∙◌, ◌≢◌, inl, inr, Bool, true, false, not, ◌&&◌,
  ◌||◌, some, List, [], ◌∷◌, ◌++◌, append-nil, append_assoc, arith, ltb, ◌==◌, if◌then◌else◌,
  Bool-cases, Option-cases, get_elem?, set, replicate,
}
use image_proxy.TaskPool.{
  Task, Worker, at_top, waiting, woken, got, rendered, sending, ended, System, Action, call_init,
  call_add, call_stop, call_join, work, spurious, is_empty_task, init, next_task, add_task,
  request_stop, all_ended, join, take_task, worker_step, wake, work_at, wake_at, step, run,
  notify_all,
}
use image_proxy.TaskPool.Places.{one, answered, answered-append, same_head}

-- Of the workers behind the second look at `exit_requested`, how many have a task that passes a test.
abbrev pub sends : (Task → Bool) → Worker → ℕ
sends f at_top = 0
sends f waiting = 0
sends f woken = 0
sends f (got t e) = 0
sends f (rendered t c) = 0
sends f (sending t c) = one (f t)
sends f ended = 0

abbrev pub leaving : (Task → Bool) → List Worker → ℕ
leaving f [] = 0
leaving f (w ∷ ws) = sends f w + leaving f ws

leaving-set :
    (f : Task → Bool) (ws : List Worker) (i : ℕ) (w w' : Worker)
    → get_elem? ws i ≡ some w
    → leaving f (set ws i w') + sends f w ≡ leaving f ws + sends f w'
leaving-set f [] i w w' e = absurd (cc e)
leaving-set f (v ∷ ws) zero w w' e =
    let h : sends f v ≡ sends f w = ap (sends f) (same_head e) in omega (arith, h)
leaving-set f (v ∷ ws) (suc i) w w' e = omega (arith, leaving-set f ws i w w' e)

leaving-notify_all : (f : Task → Bool) (ws : List Worker) → leaving f (notify_all ws) ≡ leaving f ws
unfolding notify_all
leaving-notify_all f [] = refl
leaving-notify_all f (at_top ∷ ws) = omega (arith, leaving-notify_all f ws)
leaving-notify_all f (waiting ∷ ws) = omega (arith, leaving-notify_all f ws)
leaving-notify_all f (woken ∷ ws) = omega (arith, leaving-notify_all f ws)
leaving-notify_all f (got t e ∷ ws) = omega (arith, leaving-notify_all f ws)
leaving-notify_all f (rendered t c ∷ ws) = omega (arith, leaving-notify_all f ws)
leaving-notify_all f (sending t c ∷ ws) = ap (λ n. one (f t) + n) (leaving-notify_all f ws)
leaving-notify_all f (ended ∷ ws) = omega (arith, leaving-notify_all f ws)

leaving-append_new :
    (f : Task → Bool) (ws : List Worker) (n : ℕ)
    → leaving f (ws ++ replicate n at_top) ≡ leaving f ws
leaving-append_new f [] zero = refl
leaving-append_new f [] (suc n) = omega (arith, leaving-append_new f [] n)
leaving-append_new f (w ∷ ws) n = ap (λ n. sends f w + n) (leaving-append_new f ws n)

-- A step after the request keeps the request, and the responses it adds are those of workers that were behind
-- their second look.
abbrev pub Quiet : System → System → Type 0
Quiet s s' =
    (s'.exit_requested ≡ true)
    × (more : List (Task × ℕ)) × (s'.responses ≡ s.responses ++ more)
    × ((f : Task → Bool) → answered f more + leaving f s'.workers ≡ leaving f s.workers)

silent :
    (s s' : System)
    → s'.exit_requested ≡ true
    → s'.responses ≡ s.responses
    → ((f : Task → Bool) → leaving f s'.workers ≡ leaving f s.workers)
    → Quiet s s'
silent s s' x r l = (x, [], r ∙ sym (append-nil s.responses), λ f. omega (arith, l f))

-- A worker that moves between places without a response to send.
moved :
    (s s' : System) (i : ℕ) (w w' : Worker)
    → s'.exit_requested ≡ true
    → s'.responses ≡ s.responses
    → s'.workers ≡ set s.workers i w'
    → get_elem? s.workers i ≡ some w
    → ((f : Task → Bool) → sends f w ≡ sends f w')
    → Quiet s s'
moved s s' i w w' x r h e l =
    silent s s' x r (λ f. ap (leaving f) h ∙ omega (arith, leaving-set f s.workers i w w' e, l f))

take_task-Quiet :
    (s : System) (i : ℕ) (w : Worker)
    → s.exit_requested ≡ true
    → get_elem? s.workers i ≡ some w
    → ((f : Task → Bool) → sends f w ≡ 0)
    → Quiet s (take_task s i)
unfolding take_task
take_task-Quiet s i w x g l =
    let s1 = take_task s i in
    elim (Bool-cases (is_empty_task (next_task s.tasks).0 && not s.exit_requested)) [
      | inl e ↦ moved s s1 i w waiting (rw e x) (rw e refl) (rw e refl) g l
      | inr e ↦
          moved s s1 i w (got (next_task s.tasks).0 s.exit_requested) (rw e x) (rw e refl)
            (rw e refl) g l
    ]

init-Quiet : (s : System) (n : ℕ) → s.exit_requested ≡ true → Quiet s (init s n).0
unfolding init
init-Quiet s n x = elim (Bool-cases (not (s.threads == 0) || ltb n 1)) [
  | inl e ↦ silent s (init s n).0 (rw e x) (rw e refl) (λ f. rw e refl)
  | inr e ↦
      silent s (init s n).0 (rw e x) (rw e refl) (λ f. rw e (leaving-append_new f s.workers n))
]

add_task-Quiet : (s : System) (t : Task) → s.exit_requested ≡ true → Quiet s (add_task s t).0
unfolding add_task
add_task-Quiet s t x = elim (Bool-cases ((s.threads == 0) || is_empty_task t)) [
  | inl e ↦ silent s (add_task s t).0 (rw e x) (rw e refl) (λ f. rw e refl)
  | inr e ↦
      silent s (add_task s t).0 (rw e x) (rw e refl) (λ f. rw e (leaving-notify_all f s.workers))
]

request_stop-Quiet : (s : System) → s.exit_requested ≡ true → Quiet s (request_stop s)
unfolding request_stop
request_stop-Quiet s x = elim (Bool-cases (s.threads == 0)) [
  | inl e ↦ silent s (request_stop s) (rw e x) (rw e refl) (λ f. rw e refl)
  | inr e ↦
      silent s (request_stop s) (rw e refl) (rw e refl) (λ f. rw e (leaving-notify_all f s.workers))
]

join-Quiet : (s : System) → s.exit_requested ≡ true → Quiet s (join s)
unfolding join
join-Quiet s x = elim (Bool-cases (all_ended s.workers)) [
  | inl e ↦ silent s (join s) (rw e x) (rw e refl) (λ f. rw e refl)
  | inr e ↦ silent s (join s) (rw e x) (rw e refl) (λ f. rw e refl)
]

got-Quiet :
    (s : System) (i : ℕ) (t : Task) (b throws : Bool)
    → s.exit_requested ≡ true
    → get_elem? s.workers i ≡ some (got t b)
    → Quiet s (worker_step s i (got t b) throws)
unfolding worker_step
got-Quiet s i t b throws x g =
    let s1 = worker_step s i (got t b) throws in
    elim (Bool-cases (not (is_empty_task t) && not b)) [
      | inl h ↦
          moved s s1 i (got t b) (rendered t (if throws then 500 else 200)) (rw h x) (rw h refl)
            (rw h refl) g (λ f. refl)
      | inr h ↦ elim (Bool-cases b) [
        | inl y ↦ moved s s1 i (got t b) ended (rw h x) (rw h refl) (rw (h, y) refl) g (λ f. refl)
        | inr y ↦ moved s s1 i (got t b) at_top (rw h x) (rw h refl) (rw (h, y) refl) g (λ f. refl)
      ]
    ]

worker_step-Quiet :
    (s : System) (i : ℕ) (w : Worker) (throws : Bool)
    → s.exit_requested ≡ true
    → get_elem? s.workers i ≡ some w
    → Quiet s (worker_step s i w throws)
unfolding worker_step
worker_step-Quiet s i at_top throws x g = take_task-Quiet s i at_top x g (λ f. refl)
worker_step-Quiet s i waiting throws x g = silent s s x refl (λ f. refl)
worker_step-Quiet s i woken throws x g = take_task-Quiet s i woken x g (λ f. refl)
worker_step-Quiet s i (got t b) throws x g = got-Quiet s i t b throws x g
worker_step-Quiet s i (rendered t c) throws x g =
    moved s (worker_step s i (rendered t c) throws) i (rendered t c) ended x refl (rw x refl) g
      (λ f. refl)
worker_step-Quiet s i (sending t c) throws x g =
    (x, (t, c) ∷ [], refl, λ f. omega (arith, leaving-set f s.workers i (sending t c) at_top g))
worker_step-Quiet s i ended throws x g = silent s s x refl (λ f. refl)

wake-Quiet :
    (s : System) (i : ℕ) (w : Worker)
    → s.exit_requested ≡ true
    → get_elem? s.workers i ≡ some w
    → Quiet s (wake s i w)
unfolding wake
wake-Quiet s i at_top x g = silent s s x refl (λ f. refl)
wake-Quiet s i waiting x g = moved s (wake s i waiting) i waiting woken x refl refl g (λ f. refl)
wake-Quiet s i woken x g = silent s s x refl (λ f. refl)
wake-Quiet s i (got t e) x g = silent s s x refl (λ f. refl)
wake-Quiet s i (rendered t c) x g = silent s s x refl (λ f. refl)
wake-Quiet s i (sending t c) x g = silent s s x refl (λ f. refl)
wake-Quiet s i ended x g = silent s s x refl (λ f. refl)

pub step-Quiet : (s : System) (a : Action) → s.exit_requested ≡ true → Quiet s (step s a)
unfolding step work_at wake_at
step-Quiet s (call_init n) x = init-Quiet s n x
step-Quiet s (call_add t) x = add_task-Quiet s t x
step-Quiet s call_stop x = request_stop-Quiet s x
step-Quiet s call_join x = join-Quiet s x
step-Quiet s (work i throws) x = elim (Option-cases (get_elem? s.workers i)) [
  | inl e ↦ subst (λ o. Quiet s (work_at s i o throws)) (sym e) (silent s s x refl (λ f. refl))
  | inr (w, e) ↦
      subst (λ o. Quiet s (work_at s i o throws)) (sym e) (worker_step-Quiet s i w throws x e)
]
step-Quiet s (spurious i) x = elim (Option-cases (get_elem? s.workers i)) [
  | inl e ↦ subst (λ o. Quiet s (wake_at s i o)) (sym e) (silent s s x refl (λ f. refl))
  | inr (w, e) ↦ subst (λ o. Quiet s (wake_at s i o)) (sym e) (wake-Quiet s i w x e)
]

Quiet-trans : (s s1 s2 : System) → Quiet s s1 → Quiet s1 s2 → Quiet s s2
Quiet-trans s s1 s2 (x, m, r, l) (x1, m1, r1, l1) = (
  x1,
  m ++ m1,
  r1 ∙ ap (λ t. t ++ m1) r ∙ append_assoc s.responses m m1,
  λ f. omega (arith, l f, l1 f, answered-append f m m1),
)

pub run-Quiet :
    (s : System) (schedule : List Action) → s.exit_requested ≡ true → Quiet s (run s schedule)
unfolding run
run-Quiet s [] x = silent s s x refl (λ f. refl)
run-Quiet s (a ∷ rest) x =
    let q : Quiet s (step s a) = step-Quiet s a x in
    Quiet-trans s (step s a) (run (step s a) rest) q (run-Quiet (step s a) rest q.0)

pub request_stop-requests : (s : System) → s.threads ≢ 0 → Quiet s (request_stop s)
unfolding request_stop
request_stop-requests s h =
    let e : (s.threads == 0) ≡ false = ground arith in
    silent s (request_stop s) (rw e refl) (rw e refl) (λ f. rw e (leaving-notify_all f s.workers))

-- Once `Stop` is called on a pool with threads, whatever calls follow and however the threads go on, the
-- responses that are still sent are of workers that had already looked at `exit_requested` for the second time,
-- at most one of each: with any test on tasks, those that were sent since and those still to be sent are as
-- many as there were such workers at the call. `exit_requested` stays set for good, so also after the threads
-- were joined, `Init` started new ones and `AddTask` took further tasks.
pub stop-last_responses :
    (s : System) (schedule : List Action)
    → s.threads ≢ 0
    → let s' = run (request_stop s) schedule in
      (s'.exit_requested ≡ true)
      × (more : List (Task × ℕ)) × (s'.responses ≡ s.responses ++ more)
      × ((f : Task → Bool) → answered f more + leaving f s'.workers ≡ leaving f s.workers)
stop-last_responses s schedule h =
    let q : Quiet s (request_stop s) = request_stop-requests s h in
    Quiet-trans s (request_stop s) (run (request_stop s) schedule) q
      (run-Quiet (request_stop s) schedule q.0)
