-- ===== src/TaskPool/Places.antt =====
-- The tasks that the workers of the pool hold, and what a worker's place says of the queue.
use image_proxy.Base.{
  ℕ, zero, suc, ◌+◌, ◌≡◌, refl, ap, subst, Bool, true, false, none, some, List, [], ◌∷◌, ◌++◌,
  arith, if◌then◌else◌, get_elem?, set, replicate, All,
}
use image_proxy.TaskPool.{
  Task, Worker, at_top, waiting, woken, got, rendered, sending, ended, is_empty_task, notify_all,
}

-- How many tasks of a list, of the workers and of the responses pass a test.
abbrev pub one : Bool → ℕ
one b = if b then 1 else 0

abbrev pub count : (Task → Bool) → List Task → ℕ
count f [] = 0
count f (t ∷ ts) = one (f t) + count f ts

abbrev pub held : (Task → Bool) → Worker → ℕ
held f at_top = 0
held f waiting = 0
held f woken = 0
held f (got t e) = one (f t)
held f (rendered t c) = one (f t)
held f (sending t c) = one (f t)
held f ended = 0

abbrev pub busy : (Task → Bool) → List Worker → ℕ
busy f [] = 0
busy f (w ∷ ws) = held f w + busy f ws

abbrev pub answered : (Task → Bool) → List (Task × ℕ) → ℕ
answered f [] = 0
answered f (r ∷ rs) = one (f r.0) + answered f rs

pub count-append :
    (f : Task → Bool) (ts us : List Task) → count f (ts ++ us) ≡ count f ts + count f us
count-append f [] us = omega arith
count-append f (t ∷ ts) us = omega (arith, count-append f ts us)

pub answered-append :
    (f : Task → Bool) (ts us : List (Task × ℕ))
    → answered f (ts ++ us) ≡ answered f ts + answered f us
answered-append f [] us = omega arith
answered-append f (t ∷ ts) us = omega (arith, answered-append f ts us)

pub same_head : {v w : Worker} → some v ≡ some w → v ≡ w
same_head {v = v} e = ap (λ o. elim o [ none ↦ v | some x ↦ x ]) e

pub busy-set :
    (f : Task → Bool) (ws : List Worker) (i : ℕ) (w w' : Worker)
    → get_elem? ws i ≡ some w
    → busy f (set ws i w') + held f w ≡ busy f ws + held f w'
busy-set f [] i w w' e = absurd (cc e)
busy-set f (v ∷ ws) zero w w' e =
    let h : held f v ≡ held f w = ap (held f) (same_head e) in omega (arith, h)
busy-set f (v ∷ ws) (suc i) w w' e = omega (arith, busy-set f ws i w w' e)

pub busy-notify_all : (f : Task → Bool) (ws : List Worker) → busy f (notify_all ws) ≡ busy f ws
unfolding notify_all
busy-notify_all f [] = refl
busy-notify_all f (at_top ∷ ws) = omega (arith, busy-notify_all f ws)
busy-notify_all f (waiting ∷ ws) = omega (arith, busy-notify_all f ws)
busy-notify_all f (woken ∷ ws) = omega (arith, busy-notify_all f ws)
busy-notify_all f (got t e ∷ ws) = ap (λ n. one (f t) + n) (busy-notify_all f ws)
busy-notify_all f (rendered t c ∷ ws) = ap (λ n. one (f t) + n) (busy-notify_all f ws)
busy-notify_all f (sending t c ∷ ws) = ap (λ n. one (f t) + n) (busy-notify_all f ws)
busy-notify_all f (ended ∷ ws) = omega (arith, busy-notify_all f ws)

pub busy-append_new :
    (f : Task → Bool) (ws : List Worker) (n : ℕ) → busy f (ws ++ replicate n at_top) ≡ busy f ws
busy-append_new f [] zero = refl
busy-append_new f [] (suc n) = omega (arith, busy-append_new f [] n)
busy-append_new f (w ∷ ws) n = ap (λ n. held f w + n) (busy-append_new f ws n)

-- What a worker's place says of the queue and of `exit_requested`: one in `wait` has nothing to do,
-- one with `exit` set has seen `exit_requested`, one without holds a task.
abbrev pub Fits : List Task → Bool → Worker → Type 0
Fits ts exit at_top = Unit
Fits ts exit waiting = (ts ≡ []) × (exit ≡ false)
Fits ts exit woken = Unit
Fits ts exit (got t e) = (e ≡ true → exit ≡ true) × (e ≡ false → is_empty_task t ≡ false)
Fits ts exit (rendered t c) = Unit
Fits ts exit (sending t c) = Unit
Fits ts exit ended = exit ≡ true

pub Fits-notify_all :
    (ts ts' : List Task) (x x' : Bool) (ws : List Worker)
    → (x ≡ true → x' ≡ true)
    → All (Fits ts x) ws
    → All (Fits ts' x') (notify_all ws)
unfolding notify_all
Fits-notify_all ts ts' x x' [] k h = tt
Fits-notify_all ts ts' x x' (at_top ∷ ws) k h = (tt, Fits-notify_all ts ts' x x' ws k h.1)
Fits-notify_all ts ts' x x' (waiting ∷ ws) k h = (tt, Fits-notify_all ts ts' x x' ws k h.1)
Fits-notify_all ts ts' x x' (woken ∷ ws) k h = (tt, Fits-notify_all ts ts' x x' ws k h.1)
Fits-notify_all ts ts' x x' (got t e ∷ ws) k h =
    ((λ q. k (h.0.0 q), h.0.1), Fits-notify_all ts ts' x x' ws k h.1)
Fits-notify_all ts ts' x x' (rendered t c ∷ ws) k h = (tt, Fits-notify_all ts ts' x x' ws k h.1)
Fits-notify_all ts ts' x x' (sending t c ∷ ws) k h = (tt, Fits-notify_all ts ts' x x' ws k h.1)
Fits-notify_all ts ts' x x' (ended ∷ ws) k h = (k h.0, Fits-notify_all ts ts' x x' ws k h.1)

module _ {P Q : Worker → Type 0} (weaken : (w : Worker) → P w → Q w) where
  pub All-weaken : (ws : List Worker) → All P ws → All Q ws
  All-weaken [] h = tt
  All-weaken (w ∷ ws) h = (weaken w h.0, All-weaken ws h.1)

module _ (P : Worker → Type 0) where
  pub All-set : (ws : List Worker) (i : ℕ) (w : Worker) → All P ws → P w → All P (set ws i w)
  All-set [] i w h q = tt
  All-set (v ∷ ws) zero w h q = (q, h.1)
  All-set (v ∷ ws) (suc i) w h q = (h.0, All-set ws i w h.1 q)

  pub All-get : (ws : List Worker) (i : ℕ) (w : Worker) → All P ws → get_elem? ws i ≡ some w → P w
  All-get [] i w h e = absurd (cc e)
  All-get (v ∷ ws) zero w h e = subst P (same_head e) h.0
  All-get (v ∷ ws) (suc i) w h e = All-get ws i w h.1 e

  pub All-append_new :
      (ws : List Worker) (n : ℕ) → All P ws → P at_top → All P (ws ++ replicate n at_top)
  All-append_new [] zero h q = tt
  All-append_new [] (suc n) h q = (q, All-append_new [] n tt q)
  All-append_new (w ∷ ws) n h q = (h.0, All-append_new ws n h.1 q)

pub Fits-rest :
    (t : Task) (ts : List Task) (x : Bool) (w : Worker) → Fits (t ∷ ts) x w → Fits ts x w
Fits-rest t ts x at_top h = tt
Fits-rest t ts x waiting h = absurd (cc (h.0))
Fits-rest t ts x woken h = tt
Fits-rest t ts x (got u e) h = h
Fits-rest t ts x (rendered u c) h = tt
Fits-rest t ts x (sending u c) h = tt
Fits-rest t ts x ended h = h

abbrev pub IsTask : Task → Type 0
IsTask t = is_empty_task t ≡ false

pub All-append_one :
    (ts : List Task) (t : Task) → All IsTask ts → IsTask t → All IsTask (ts ++ (t ∷ []))
All-append_one [] t h q = (q, tt)
All-append_one (u ∷ ts) t h q = (h.0, All-append_one ts t h.1 q)
