-- ===== src/TaskPool/Validity.antt =====
-- What holds of the pool and its workers at any time, and that the calls of the pool and the search
-- for a task keep it.
use image_proxy.Base.{
  ℕ, suc, ◌+◌, ◌-◌, ◌≡◌, refl, sym, ap, subst, ◌∙◌, inl, inr, Bool, true, false, not, ◌||◌, some,
  List, [], ◌∷◌, ◌++◌, append-nil, append_assoc, arith, ltb, ◌==◌, Bool-cases, List-cases, length,
  get_elem?, set, All,
}
use image_proxy.TaskPool.{
  Task, Worker, waiting, got, System, no_task, is_null, is_empty_task, new_pool, init, next_task,
  add_task, request_stop, all_ended, join, take_task,
}
use image_proxy.TaskPool.Places.{
  All-append_new, All-set, All-weaken, Fits, count, held, busy, answered, count-append, busy-set,
  busy-notify_all, busy-append_new, Fits-notify_all, Fits-rest, IsTask, All-append_one,
}

pub record IsValid (s : System) : Type 0 where
  pub in_order : s.removed ++ s.tasks ≡ s.accepted
  pub are_tasks : All IsTask s.tasks
  pub fits : All (Fits s.tasks s.exit_requested) s.workers
  pub counted :
      s.exit_requested ≡ false
      → (f : Task → Bool)
      → count f s.accepted ≡ count f s.tasks + busy f s.workers + answered f s.responses

pub init_pool-IsValid : IsValid new_pool
init_pool-IsValid = record { in_order = refl; are_tasks = tt; fits = tt; counted = λ q f. refl }

pub init-IsValid : (s : System) (n : ℕ) → IsValid s → IsValid (init s n).0
unfolding init
init-IsValid s n v = elim (Bool-cases (not (s.threads == 0) || ltb n 1)) [
  | inl e ↦ rw e v
  | inr e ↦ rw e (record {
    in_order = v.in_order;
    are_tasks = v.are_tasks;
    fits = All-append_new _ s.workers n v.fits tt;
    counted = λ q f. omega (arith, v.counted q f, busy-append_new f s.workers n);
  })
]

pub add_task-IsValid : (s : System) (t : Task) → IsValid s → IsValid (add_task s t).0
unfolding add_task
add_task-IsValid s t v = elim (Bool-cases ((s.threads == 0) || is_empty_task t)) [
  | inl e ↦ rw e v
  | inr e ↦ rw e (record {
    in_order = sym (append_assoc s.removed s.tasks (t ∷ [])) ∙ ap (λ l. l ++ (t ∷ [])) v.in_order;
    are_tasks = All-append_one s.tasks t v.are_tasks (ground arith);
    fits =
        Fits-notify_all s.tasks (s.tasks ++ (t ∷ [])) s.exit_requested s.exit_requested s.workers
          (λ q. q) v.fits;
    counted = λ q f. omega (
      arith,
      v.counted q f,
      busy-notify_all f s.workers,
      count-append f s.accepted (t ∷ []),
      count-append f s.tasks (t ∷ []),
    );
  })
]

pub request_stop-IsValid : (s : System) → IsValid s → IsValid (request_stop s)
unfolding request_stop
request_stop-IsValid s v = elim (Bool-cases (s.threads == 0)) [
  | inl e ↦ rw e v
  | inr e ↦ rw e (record {
    in_order = append-nil (s.removed ++ s.tasks) ∙ v.in_order;
    are_tasks = tt;
    fits = Fits-notify_all s.tasks [] s.exit_requested true s.workers (λ q. refl) v.fits;
    counted = λ q f. absurd (cc q);
  })
]

pub join-IsValid : (s : System) → IsValid s → IsValid (join s)
unfolding join
join-IsValid s v = elim (Bool-cases (all_ended s.workers)) [
  | inl e ↦ rw e (record {
    in_order = v.in_order;
    are_tasks = v.are_tasks;
    fits = v.fits;
    counted = v.counted;
  })
  | inr e ↦ rw e v
]

-- A step that only moves a worker, to a place that fits and holds the same tasks.
pub move-IsValid :
    (s : System) (i : ℕ) (w w' : Worker)
    → IsValid s
    → get_elem? s.workers i ≡ some w
    → Fits s.tasks s.exit_requested w'
    → (s.exit_requested ≡ false → (f : Task → Bool) → held f w ≡ held f w')
    → IsValid (record s { workers = set s.workers i w' })
move-IsValid s i w w' v e fit same = record {
  in_order = v.in_order;
  are_tasks = v.are_tasks;
  fits = All-set _ s.workers i w' v.fits fit;
  counted = λ q f. omega (arith, v.counted q f, busy-set f s.workers i w w' e, same q f);
}

-- The place of a worker that is to look for a task.
abbrev pub Looking : Worker → Type 0
Looking w = (f : Task → Bool) → held f w ≡ 0

-- What the queue loses goes to the record of the removed tasks, and one of them to the worker.
pub took-IsValid :
    (s : System) (i : ℕ) (w w' : Worker) (gone ts : List Task)
    → IsValid s
    → get_elem? s.workers i ≡ some w
    → Looking w
    → gone ++ ts ≡ s.tasks
    → All IsTask ts
    → All (Fits ts s.exit_requested) s.workers
    → Fits ts s.exit_requested w'
    → (s.exit_requested ≡ false → (f : Task → Bool) → count f s.tasks ≡ count f ts + held f w')
    → IsValid (record s { tasks = ts; removed = s.removed ++ gone; workers = set s.workers i w' })
took-IsValid s i w w' gone ts v e l split are fits fit same = record {
  in_order = append_assoc s.removed gone ts ∙ ap (λ l. s.removed ++ l) split ∙ v.in_order;
  are_tasks = are;
  fits = All-set _ s.workers i w' fits fit;
  counted = λ q f. omega (arith, v.counted q f, busy-set f s.workers i w w' e, same q f, l f);
}

pub take_none-IsValid :
    (s : System) (i : ℕ) (w : Worker)
    → IsValid s
    → get_elem? s.workers i ≡ some w
    → Looking w
    → s.tasks ≡ []
    → IsValid (take_task s i)
unfolding take_task next_task is_empty_task is_null
take_none-IsValid s i w v e l there =
    let fits : All (Fits [] s.exit_requested) s.workers =
      subst (λ q. All (Fits q s.exit_requested) s.workers) there v.fits in
    elim (Bool-cases s.exit_requested) [
      | inl x ↦
          let shape : take_task s i ≡ record s {
            tasks = [];
            removed = s.removed ++ [];
            workers = set s.workers i (got no_task s.exit_requested);
          } =
            rw (there, x) refl in
          subst IsValid (sym shape) (
            took-IsValid s i w (got no_task s.exit_requested) [] [] v e l (sym there) tt fits
              ((λ q. q), λ q. absurd (cc (q, x))) (λ q f. absurd (cc (q, x))))
      | inr x ↦
          let shape : take_task s i ≡ record s {
            tasks = [];
            removed = s.removed ++ [];
            workers = set s.workers i waiting;
          } =
            rw (there, x) refl in
          subst IsValid (sym shape) (
            took-IsValid s i w waiting [] [] v e l (sym there) tt fits (refl, x)
              (λ q f. let c : count f s.tasks ≡ 0 = ap (count f) there in omega (arith, c)))
    ]

pub take_one-IsValid :
    (s : System) (i : ℕ) (w : Worker) (t : Task) (ts : List Task)
    → IsValid s
    → get_elem? s.workers i ≡ some w
    → Looking w
    → s.tasks ≡ t ∷ ts
    → IsValid (take_task s i)
unfolding take_task next_task
take_one-IsValid s i w t ts v e l there =
    let is : All IsTask (t ∷ ts) = subst (All IsTask) there v.are_tasks in
    let fits : All (Fits (t ∷ ts) s.exit_requested) s.workers =
      subst (λ q. All (Fits q s.exit_requested) s.workers) there v.fits in
    let one_less : suc (length ts) - length ts ≡ 1 = omega arith in
    let shape : take_task s i ≡ record s {
      tasks = ts;
      removed = s.removed ++ (t ∷ []);
      workers = set s.workers i (got t s.exit_requested);
    } =
      rw (there, is.0, one_less) refl in
    subst IsValid (sym shape) (
      took-IsValid s i w (got t s.exit_requested) (t ∷ []) ts v e l (sym there) is.1
        (All-weaken (Fits-rest t ts s.exit_requested) s.workers fits) ((λ q. q), λ q. is.0)
        (λ q f.
          let c : count f s.tasks ≡ count f (t ∷ ts) = ap (count f) there in omega (arith, c)))

pub take_task-IsValid :
    (s : System) (i : ℕ) (w : Worker)
    → IsValid s
    → get_elem? s.workers i ≡ some w
    → Looking w
    → IsValid (take_task s i)
take_task-IsValid s i w v e l = elim (List-cases s.tasks) [
  | inl there ↦ take_none-IsValid s i w v e l there
  | inr (t, ts, there) ↦ take_one-IsValid s i w t ts v e l there
]
