-- ===== src/ThreadPool/Pool.antt =====
-- components/thread_pool/src/thread_pool.cpp and include/openember/thread_pool/thread_pool.hpp. An
-- action is a critical section of the code, in which a thread holds the mutex.
use openember.Prelude.{
  ℕ, zero, suc, ◌-◌, Bool, true, false, not, ◌&&◌, ◌||◌, List, [], ◌∷◌, ◌++◌, Option, none, some,
  ltb, ◌==◌, if◌then◌else◌,
}
use openember.Prelude.Int.{ℤ, ltb_ℤ, int_eq}
use openember.Prelude.Text.{is_empty}
use openember.Prelude.Word.{u64}

-- `fn` is a number that tells the callables apart.
pub record Task : Type 0 where
  pub priority : ℤ
  pub seq : ℕ
  pub fn : ℕ

-- Task::operator<.
unfoldable pub less : Task → Task → Bool
less a b =
    if not (int_eq a.priority b.priority) then ltb_ℤ a.priority b.priority else ltb b.seq a.seq

-- A worker waits for a task, runs one, or has left worker_loop.
pub data Worker : Type 0 where
  waiting : Worker
  busy_with : Task → Worker
  ended : Worker

-- The members but the threads. The queue stands with its top first. The last two lists are no
-- members: the tasks that have been run, and those that shutdown has taken out of the queue.
pub record Shared : Type 0 where
  pub queue : List Task
  pub stopping : Bool
  pub accept : Bool
  pub busy : ℕ
  pub next_seq : ℕ
  pub finished : List Task
  pub dropped : List Task

pub record Pool : Type 0 where
  pub shared : Shared
  pub workers : List Worker

unfoldable pub waiting_workers : ℕ → List Worker
waiting_workers zero = []
waiting_workers (suc n) = waiting ∷ waiting_workers n

abbrev pub no_tasks : Shared
no_tasks = record {
  queue = [];
  stopping = false;
  accept = true;
  busy = 0;
  next_seq = 0;
  finished = [];
  dropped = [];
}

-- ThreadPool::ThreadPool: `none` is the exception.
unfoldable pub new_pool : ℕ → Option Pool
new_pool zero = none
new_pool (suc n) = some (record { shared = no_tasks; workers = waiting_workers (suc n) })

-- is_running.
unfoldable pub is_running : Shared → Bool
is_running s = s.accept && not s.stopping

-- `queue_.push`: the new task is behind every task that it does not exceed.
unfoldable pub push : Task → List Task → List Task
push t [] = t ∷ []
push t (u ∷ q) = let rest = push t q in if less u t then t ∷ u ∷ q else u ∷ rest

pub data Posted : Type 0 where
  accepted empty_task shutting_down : Posted

-- post, of a callable or an empty function; the two exceptions are results.
unfoldable pub post : Option ℕ → ℤ → Shared → Posted × Shared
post none priority s = (empty_task, s)
post (some fn) priority s = if not s.accept || s.stopping then (shutting_down, s) else (
  accepted,
  record s {
    queue = push (record { priority = priority; seq = s.next_seq; fn = fn }) s.queue;
    next_seq = u64 (suc s.next_seq);
  },
)

-- shutdown, up to the joins.
unfoldable pub shutdown : Bool → Shared → Shared
shutdown drain s = if s.stopping then s else record s {
  accept = false;
  stopping = true;
  queue = if drain then s.queue else [];
  dropped = if drain then s.dropped else s.queue ++ s.dropped;
}

-- The first critical section of worker_loop.
unfoldable pub take_task : List Task → Shared → Worker × Shared
take_task [] s = (if s.stopping then ended else waiting, s)
take_task (t ∷ q) s = (busy_with t, record s { queue = q; busy = suc s.busy })

-- A critical section of worker_loop: the second one follows the call of the task, which returns or
-- throws.
unfoldable pub worker_step : Worker → Shared → Worker × Shared
worker_step waiting s = take_task s.queue s
worker_step (busy_with t) s = (waiting, record s { busy = s.busy - 1; finished = t ∷ s.finished })
worker_step ended s = (ended, s)

-- One step of the worker at a place.
unfoldable pub step_at : ℕ → List Worker → Shared → List Worker × Shared
step_at i [] s = ([], s)
step_at zero (w ∷ ws) s = let (v, t) = worker_step w s in (v ∷ ws, t)
step_at (suc i) (w ∷ ws) s = let (vs, t) = step_at i ws s in (w ∷ vs, t)

-- The test of wait_idle.
unfoldable pub is_idle : Shared → Bool
is_idle s = is_empty s.queue && s.busy == 0

-- What the threads do, in any order.
pub data Action : Type 0 where
  posts : Option ℕ → ℤ → Action
  shuts_down : Bool → Action
  works : ℕ → Action

unfoldable pub act : Action → Pool → Pool
act (posts task priority) p = record p { shared = (post task priority p.shared).1 }
act (shuts_down drain) p = record p { shared = shutdown drain p.shared }
act (works i) p = let (ws, s) = step_at i p.workers p.shared in record { shared = s; workers = ws }

unfoldable pub run : List Action → Pool → Pool
run [] p = p
run (a ∷ rest) p = run rest (act a p)

-- The pool that a constructor call gives.
unfoldable pub started : ℕ → Pool
started n = record { shared = no_tasks; workers = waiting_workers (suc n) }
