-- ===== src/TaskPool/Joining.antt =====
-- After a request to stop every thread ends within three steps of its own, so that `join` returns.
use image_proxy.Base.{
  ℕ, zero, suc, ◌-◌, ◌≤◌, ◌<◌, ◌≡◌, refl, sym, ap, subst, ◌∙◌, ◌≢◌, Bool, true, false, not, ◌&&◌,
  none, some, List, [], ◌∷◌, arith, if◌then◌else◌, length, get_elem?, set, drop, All, length-set,
}
use image_proxy.TaskPool.{
  Task, Worker, at_top, waiting, woken, got, rendered, sending, ended, System, work, is_empty_task,
  next_task, take_task, worker_step, work_at, step, new_pool, request_stop, all_ended, join, run,
  Action,
}
use image_proxy.TaskPool.Places.{Fits, All-get}
use image_proxy.TaskPool.Conservation.{run-IsValid, step-IsValid}
use image_proxy.TaskPool.Validity.{init_pool-IsValid, IsValid, request_stop-IsValid}
use image_proxy.TaskPool.Stopping.{step-Quiet, request_stop-requests}

-- How many steps a worker has left once a stop is requested.
abbrev pub steps_left : Worker → ℕ
steps_left at_top = 2
steps_left waiting = 2
steps_left woken = 2
steps_left (got t e) = if e then 1 else 2
steps_left (rendered t c) = 1
steps_left (sending t c) = 3
steps_left ended = 0

-- A step of the worker `i` puts it to a place with fewer steps left.
abbrev Nearer : System → ℕ → Worker → System → Type 0
Nearer s i w s' =
    (w' : Worker) × (s'.workers ≡ set s.workers i w') × (steps_left w' ≤ steps_left w - 1)

set-same : (ws : List Worker) (i : ℕ) (w : Worker) → get_elem? ws i ≡ some w → ws ≡ set ws i w
set-same [] i w e = absurd (cc e)
set-same (v ∷ ws) zero w e = ap (λ o. elim o [ none ↦ v ∷ ws | some x ↦ x ∷ ws ]) e
set-same (v ∷ ws) (suc i) w e = ap (◌∷◌ v) (set-same ws i w e)

set-set : (ws : List Worker) (i : ℕ) (v w : Worker) → set (set ws i v) i w ≡ set ws i w
set-set [] i v w = refl
set-set (x ∷ ws) zero v w = refl
set-set (x ∷ ws) (suc i) v w = ap (◌∷◌ x) (set-set ws i v w)

take_task-Nearer :
    (s : System) (i : ℕ)
    → s.exit_requested ≡ true
    → (t : Task) × ((take_task s i).workers ≡ set s.workers i (got t true))
unfolding take_task
take_task-Nearer s i x =
    let h : (is_empty_task (next_task s.tasks).0 && not s.exit_requested) ≡ false = ground arith in
    ((next_task s.tasks).0, rw (h, x) refl)

got-Nearer :
    (s : System) (i : ℕ) (t : Task) (e throws : Bool)
    → s.exit_requested ≡ true
    → Fits s.tasks s.exit_requested (got t e)
    → Nearer s i (got t e) (worker_step s i (got t e) throws)
unfolding worker_step
got-Nearer s i t true throws x f =
    let h : (not (is_empty_task t) && not true) ≡ false = ground arith in
    (ended, rw h refl, omega arith)
got-Nearer s i t false throws x f =
    (rendered t (if throws then 500 else 200), rw (f.1 refl) refl, omega arith)

worker_step-Nearer :
    (s : System) (i : ℕ) (w : Worker) (throws : Bool)
    → s.exit_requested ≡ true
    → Fits s.tasks s.exit_requested w
    → get_elem? s.workers i ≡ some w
    → Nearer s i w (worker_step s i w throws)
unfolding worker_step
worker_step-Nearer s i at_top throws x f e =
    let (t, h) = take_task-Nearer s i x in (got t true, h, omega arith)
worker_step-Nearer s i waiting throws x f e = absurd (cc (f.1, x))
worker_step-Nearer s i woken throws x f e =
    let (t, h) = take_task-Nearer s i x in (got t true, h, omega arith)
worker_step-Nearer s i (got t b) throws x f e = got-Nearer s i t b throws x f
worker_step-Nearer s i (rendered t c) throws x f e = (ended, rw x refl, omega arith)
worker_step-Nearer s i (sending t c) throws x f e = (at_top, refl, omega arith)
worker_step-Nearer s i ended throws x f e = (ended, set-same s.workers i ended e, omega arith)

work-Nearer :
    (s : System) (i : ℕ) (w : Worker) (throws : Bool)
    → s.exit_requested ≡ true
    → IsValid s
    → get_elem? s.workers i ≡ some w
    → Nearer s i w (step s (work i throws))
unfolding step work_at
work-Nearer s i w throws x v e =
    subst (λ o. Nearer s i w (work_at s i o throws)) (sym e)
      (worker_step-Nearer s i w throws x (All-get _ s.workers i w v.fits e) e)

at_most_three : (w : Worker) → steps_left w ≤ 3
at_most_three at_top = omega arith
at_most_three waiting = omega arith
at_most_three woken = omega arith
at_most_three (got t true) = omega arith
at_most_three (got t false) = omega arith
at_most_three (rendered t c) = omega arith
at_most_three (sending t c) = omega arith
at_most_three ended = omega arith

none_left : (w : Worker) → steps_left w ≤ 0 → w ≡ ended
none_left at_top h = absurd (omega arith)
none_left waiting h = absurd (omega arith)
none_left woken h = absurd (omega arith)
none_left (got t true) h = absurd (omega arith)
none_left (got t false) h = absurd (omega arith)
none_left (rendered t c) h = absurd (omega arith)
none_left (sending t c) h = absurd (omega arith)
none_left ended h = refl

get-set_self :
    (ws : List Worker) (i : ℕ) (w v : Worker)
    → get_elem? ws i ≡ some w
    → get_elem? (set ws i v) i ≡ some v
get-set_self [] i w v e = absurd (cc e)
get-set_self (x ∷ ws) zero w v e = refl
get-set_self (x ∷ ws) (suc i) w v e = get-set_self ws i w v e

-- A step of a worker and what it leaves to do.
one_step :
    (s : System) (i : ℕ) (w : Worker) (throws : Bool)
    → s.exit_requested ≡ true
    → IsValid s
    → get_elem? s.workers i ≡ some w
    → (w' : Worker) × ((step s (work i throws)).workers ≡ set s.workers i w')
      × (steps_left w' ≤ steps_left w - 1)
      × (get_elem? (step s (work i throws)).workers i ≡ some w')
one_step s i w throws x v e =
    let (w1, h1, l1) = work-Nearer s i w throws x v e in
    (w1, h1, l1, ap (λ ws. get_elem? ws i) h1 ∙ get-set_self s.workers i w w1 e)

-- The calls of `Render` in three steps of a worker throw or not.
abbrev pub Throws : Type 0
Throws = Bool × Bool × Bool

abbrev pub three_steps : ℕ → Throws → System → System
three_steps i (a, b, c) s = step (step (step s (work i a)) (work i b)) (work i c)

-- Three steps end the worker, and leave the others where they are.
three_steps_lem :
    (s : System) (i : ℕ) (w : Worker) (t : Throws)
    → s.exit_requested ≡ true
    → IsValid s
    → get_elem? s.workers i ≡ some w
    → (three_steps i t s).workers ≡ set s.workers i ended
three_steps_lem s i w (a, b, c) x v e =
    let s1 = step s (work i a) in
    let s2 = step s1 (work i b) in
    let (w1, h1, l1, e1) = one_step s i w a x v e in
    let x1 = (step-Quiet s (work i a) x).0 in
    let v1 = step-IsValid s (work i a) v in
    let (w2, h2, l2, e2) = one_step s1 i w1 b x1 v1 e1 in
    let x2 = (step-Quiet s1 (work i b) x1).0 in
    let (w3, h3, l3, e3) = one_step s2 i w2 c x2 (step-IsValid s1 (work i b) v1) e2 in
    let done : w3 ≡ ended = none_left w3 (omega (arith, l1, l2, l3, at_most_three w)) in
    h3
    ∙ ap (λ ws. set ws i w3) (h2 ∙ ap (λ ws. set ws i w2) h1)
    ∙ ap (λ ws. set ws i w3) (set-set s.workers i w1 w2)
    ∙ set-set s.workers i w2 w3
    ∙ ap (set s.workers i) done

abbrev pub AllEnded : List Worker → Type 0
AllEnded = All (λ (w : Worker). w ≡ ended)

all_ended-AllEnded : (ws : List Worker) → AllEnded ws → all_ended ws ≡ true
unfolding all_ended
all_ended-AllEnded [] h = refl
all_ended-AllEnded (w ∷ ws) h = rw (h.0) (all_ended-AllEnded ws h.1)

drop-set :
    (ws : List Worker) (k : ℕ)
    → k < length ws
    → AllEnded (drop (suc k) ws)
    → AllEnded (drop k (set ws k ended))
drop-set [] k h a = absurd (omega arith)
drop-set (w ∷ ws) zero h a = (refl, a)
drop-set (w ∷ ws) (suc k) h a = drop-set ws k (omega arith) a

get_in : (ws : List Worker) (k : ℕ) → k < length ws → (w : Worker) × (get_elem? ws k ≡ some w)
get_in [] k h = absurd (omega arith)
get_in (w ∷ ws) zero h = (w, refl)
get_in (w ∷ ws) (suc k) h = get_in ws k (omega arith)

nothing_behind : (ws : List Worker) → AllEnded (drop (length ws) ws)
nothing_behind [] = tt
nothing_behind (w ∷ ws) = nothing_behind ws

-- Three steps of each of the first `k` workers, in any case of `Render`.
unfoldable pub three_each : (ℕ → Throws) → ℕ → List Action
three_each throws zero = []
three_each throws (suc k) =
    let (a, b, c) = throws k in work k a ∷ work k b ∷ work k c ∷ three_each throws k

three_each_lem :
    (throws : ℕ → Throws) (s : System) (k : ℕ)
    → s.exit_requested ≡ true
    → IsValid s
    → k ≤ length s.workers
    → AllEnded (drop k s.workers)
    → AllEnded (run s (three_each throws k)).workers
unfolding three_each run
three_each_lem throws s zero x v l h = h
three_each_lem throws s (suc k) x v l h =
    let (w, e) = get_in s.workers k (omega arith) in
    let (a, b, c) = throws k in
    let s1 = step s (work k a) in
    let s2 = step s1 (work k b) in
    let x1 = (step-Quiet s (work k a) x).0 in
    let x2 = (step-Quiet s1 (work k b) x1).0 in
    let v2 = step-IsValid s1 (work k b) (step-IsValid s (work k a) v) in
    let t : _ = three_steps_lem s k w (a, b, c) x v e in
    three_each_lem throws (step s2 (work k c)) k (step-Quiet s2 (work k c) x2).0
      (step-IsValid s2 (work k c) v2) (omega (arith, ap length t, length-set s.workers k ended))
      (subst (λ ws. AllEnded (drop k ws)) (sym t) (drop-set s.workers k (omega arith) h))

-- Whatever happened before, once `Stop` is called on a pool with threads, three steps of each worker end
-- them all, also those that were in `wait` or on their way to `SendResponse`: `join` then returns, and the
-- pool has no threads.
pub stop-joins :
    (schedule : List Action) (throws : ℕ → Throws)
    → (run new_pool schedule).threads ≢ 0
    → let s = request_stop (run new_pool schedule) in
      let s' = run s (three_each throws (length s.workers)) in
      (all_ended s'.workers ≡ true) × ((join s').threads ≡ 0)
unfolding join
stop-joins schedule throws h =
    let s = request_stop (run new_pool schedule) in
    let v : IsValid s = request_stop-IsValid _ (run-IsValid new_pool schedule init_pool-IsValid) in
    let x : s.exit_requested ≡ true = (request_stop-requests (run new_pool schedule) h).0 in
    let a : _ =
      three_each_lem throws s (length s.workers) x v (omega arith) (nothing_behind s.workers) in
    let e : _ = all_ended-AllEnded _ a in (e, rw e refl)
