-- ===== src/TaskPool.antt =====
-- The pool of rendering threads of webhdfs_image_proxy/task_pool.cpp and task_pool.h. A shared_ptr is
-- `none` or the number of its object. The state is that of the pool and of its workers; what a worker
-- does while it holds `tasks_mutex` is one step, as is each call of another thread. A thread in
-- `tasks_cv.wait` goes on when it is notified, or for no reason. `Page::Render` is not under the
-- repository's sources: it ends, and whether it throws is part of the action.
pub mod Places
pub mod Validity
pub mod Conservation
pub mod Stopping
pub mod Joining
mod Tests
use image_proxy.Base.{
  ℕ, zero, suc, ◌+◌, ◌-◌, ◌*◌, ◌/◌, ◌%◌, ◌^◌, ◌≤◌, ◌<◌, min, max, ◌≡◌, refl, sym, ap, ap₂, subst,
  ◌∙◌, ◌≢◌, ◌↔◌, ◌⊎◌, inl, inr, Bool, true, false, not, ◌&&◌, ◌||◌, Option, none, some, List, [],
  ◌∷◌, ◌++◌, map, flatten, append-nil, append_assoc, arith, ltb, leb, ◌==◌, if◌then◌else◌, ltb→lt,
  lt→ltb, leb→le, ==→eq, ==_iff, tests, Bool-cases, Option-cases, List-cases, length, get_elem?,
  set, get_or, take, drop, replicate, All, length-append, length-set, length-take, length-drop,
  length-replicate, take-append-drop, get_elem?-set_self, get_elem?-set_ne, take-add, drop-drop,
  take-take, drop-take, take-take-min, take-all, drop-all, take-append_le, take-append_add,
  drop-append_le, drop-append_add, holds_below, holds_below_at, Bytes, dec_lt, dec_le, ℕ_discrete,
  codes, bytes_eq, bytes_eq_refl, bytes_eq→eq, bytes_eq_iff,
}

pub record Task : Type 0 where
  pub connection : Option ℕ
  pub page : Option ℕ
  pub out : Option ℕ

-- `Task()`.
abbrev pub no_task : Task
no_task = record { connection = none; page = none; out = none }

-- The test for a null pointer.
unfoldable pub is_null : Option ℕ → Bool
is_null none = true
is_null (some x) = false

-- `Task::operator!`.
unfoldable pub is_empty_task : Task → Bool
is_empty_task t = is_null t.connection || (is_null t.page || is_null t.out)

-- Where a worker is in `WorkerThread`: before the first `lock`, in `wait`, behind it, behind the
-- block with `NextTask` with its `task` and `exit`, behind `Render` with its `status_code`, and behind the
-- second block, in front of `SendResponse`.
pub data Worker : Type 0 where
  at_top : Worker
  waiting : Worker
  woken : Worker
  got : Task → Bool → Worker
  rendered : Task → ℕ → Worker
  sending : Task → ℕ → Worker
  ended : Worker

-- The pool and its threads. The last three fields are no part of the program, they record what
-- happened: the tasks of the calls of `AddTask` with result true, the tasks that left the queue, and
-- the calls of `SendResponse`.
pub record System : Type 0 where
  pub threads : ℕ
  pub tasks : List Task
  pub exit_requested : Bool
  pub workers : List Worker
  pub accepted : List Task
  pub removed : List Task
  pub responses : List (Task × ℕ)

-- The constructor.
abbrev pub new_pool : System
new_pool = record {
  threads = 0;
  tasks = [];
  exit_requested = false;
  workers = [];
  accepted = [];
  removed = [];
  responses = [];
}

-- `Init`, for a nonnegative number.
unfoldable pub init : System → ℕ → System × Bool
init s num_threads = if not (s.threads == 0) || ltb num_threads 1 then (s, false) else (
  record s { threads = num_threads; workers = s.workers ++ replicate num_threads at_top },
  true,
)

-- `NextTask`: the task, and the queue behind it.
unfoldable pub next_task : List Task → Task × List Task
next_task [] = (no_task, [])
next_task (t ∷ ts) = (t, ts)

-- `notify_all`.
unfoldable pub notify_all : List Worker → List Worker
notify_all [] = []
notify_all (waiting ∷ ws) = woken ∷ notify_all ws
notify_all (at_top ∷ ws) = at_top ∷ notify_all ws
notify_all (woken ∷ ws) = woken ∷ notify_all ws
notify_all (got t e ∷ ws) = got t e ∷ notify_all ws
notify_all (rendered t c ∷ ws) = rendered t c ∷ notify_all ws
notify_all (sending t c ∷ ws) = sending t c ∷ notify_all ws
notify_all (ended ∷ ws) = ended ∷ notify_all ws

-- `AddTask`.
unfoldable pub add_task : System → Task → System × Bool
add_task s t = if (s.threads == 0) || is_empty_task t then (s, false) else (
  record s {
    tasks = s.tasks ++ (t ∷ []);
    workers = notify_all s.workers;
    accepted = s.accepted ++ (t ∷ []);
  },
  true,
)

-- `Stop` up to the loop of `join`.
unfoldable pub request_stop : System → System
request_stop s = if s.threads == 0 then s else record s {
  tasks = [];
  exit_requested = true;
  workers = notify_all s.workers;
  removed = s.removed ++ s.tasks;
}

unfoldable pub all_ended : List Worker → Bool
all_ended [] = true
all_ended (ended ∷ ws) = all_ended ws
all_ended (at_top ∷ ws) = false
all_ended (waiting ∷ ws) = false
all_ended (woken ∷ ws) = false
all_ended (got t e ∷ ws) = false
all_ended (rendered t c ∷ ws) = false
all_ended (sending t c ∷ ws) = false

-- The loop of `join` and `threads.clear()`, which are reached once all threads have ended.
unfoldable pub join : System → System
join s = if all_ended s.workers then record s { threads = 0 } else s

-- The block of `WorkerThread` with `NextTask`, up to the end of the block or to `wait`.
unfoldable pub take_task : System → ℕ → System
take_task s i =
    let (t, ts) = next_task s.tasks in
    let left = length s.tasks - length ts in
    let s' = record s { tasks = ts; removed = s.removed ++ take left s.tasks } in
    if is_empty_task t && not s.exit_requested
    then record s' { workers = set s.workers i waiting }
    else record s' { workers = set s.workers i (got t s.exit_requested) }

-- The next step of a worker at a place, with whether `Render` throws.
unfoldable pub worker_step : System → ℕ → Worker → Bool → System
worker_step s i at_top throws = take_task s i
worker_step s i waiting throws = s
worker_step s i woken throws = take_task s i
worker_step s i (got t exit) throws =
    if not (is_empty_task t) && not exit
    then record s { workers = set s.workers i (rendered t (if throws then 500 else 200)) }
    else record s { workers = set s.workers i (if exit then ended else at_top) }
worker_step s i (rendered t code) throws = record s {
  workers = set s.workers i (if s.exit_requested then ended else sending t code);
}
worker_step s i (sending t code) throws = record s {
  workers = set s.workers i at_top;
  responses = s.responses ++ ((t, code) ∷ []);
}
worker_step s i ended throws = s

-- A `wait` that returns for no reason.
unfoldable pub wake : System → ℕ → Worker → System
wake s i waiting = record s { workers = set s.workers i woken }
wake s i at_top = s
wake s i woken = s
wake s i (got t e) = s
wake s i (rendered t c) = s
wake s i (sending t c) = s
wake s i ended = s

-- The calls of the pool and the steps of its threads.
pub data Action : Type 0 where
  call_init : ℕ → Action
  call_add : Task → Action
  call_stop : Action
  call_join : Action
  work : ℕ → Bool → Action
  spurious : ℕ → Action

-- The worker with a number, where there is one.
unfoldable pub work_at : System → ℕ → Option Worker → Bool → System
work_at s i none throws = s
work_at s i (some w) throws = worker_step s i w throws

unfoldable pub wake_at : System → ℕ → Option Worker → System
wake_at s i none = s
wake_at s i (some w) = wake s i w

unfoldable pub step : System → Action → System
step s (call_init n) = (init s n).0
step s (call_add t) = (add_task s t).0
step s call_stop = request_stop s
step s call_join = join s
step s (work i throws) = work_at s i (get_elem? s.workers i) throws
step s (spurious i) = wake_at s i (get_elem? s.workers i)

-- The actions in some order.
unfoldable pub run : System → List Action → System
run s [] = s
run s (a ∷ rest) = run (step s a) rest
