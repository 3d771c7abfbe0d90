-- ===== src/ThreadPool/Tasks.antt =====
-- components/thread_pool: what becomes of the tasks that post has accepted.
use openember.Prelude.{
  ℕ, zero, suc, ◌+◌, ◌≡◌, refl, sym, ap, Bool, true, false, not, ◌||◌, Bool-cases, inl, inr, List,
  [], ◌∷◌, ◌++◌, Option, none, some, arith, if◌then◌else◌,
}
use openember.Prelude.Int.{ℤ}
use openember.Prelude.Text.{is_empty}
use openember.ThreadPool.Pool.{
  Task, Worker, waiting, busy_with, ended, Shared, Pool, push, post, shutdown, take_task,
  worker_step, step_at, Action, posts, shuts_down, works, act, run, started, waiting_workers,
  is_idle,
}

-- The task that an action puts into the queue.
pub accepted_by : Action → Shared → List Task
accepted_by (posts none priority) s = []
accepted_by (posts (some fn) priority) s =
    if not s.accept || s.stopping
    then []
    else record { priority = priority; seq = s.next_seq; fn = fn } ∷ []
accepted_by (shuts_down drain) s = []
accepted_by (works i) s = []

-- The tasks accepted in the course of a run.
unfoldable pub accepted_in : List Action → Pool → List Task
accepted_in [] p = []
accepted_in (a ∷ rest) p = accepted_by a p.shared ++ accepted_in rest (act a p)

module _ (test : Task → Bool) where
  -- How many tasks pass a test.
  unfoldable pub count : List Task → ℕ
  count [] = 0
  count (t ∷ q) = let n = count q in if test t then suc n else n

  -- The same for the tasks that the workers run.
  abbrev pub running_of : Worker → ℕ
  running_of waiting = 0
  running_of (busy_with t) = if test t then 1 else 0
  running_of ended = 0

  unfoldable pub count_running : List Worker → ℕ
  count_running [] = 0
  count_running (w ∷ ws) = running_of w + count_running ws

  unfoldable pub stored : Shared → ℕ
  stored s = count s.queue + count s.finished + count s.dropped

  count-append : (q r : List Task) → count (q ++ r) ≡ count q + count r
  unfolding count
  count-append [] r = omega arith
  count-append (t ∷ q) r = ground (arith, count-append q r)

  count-push : (t : Task) (q : List Task) → count (push t q) ≡ count (t ∷ q)
  unfolding count push
  count-push t [] = refl
  count-push t (u ∷ q) = ground (arith, count-push t q)

  stored-post :
      (task : Option ℕ) (priority : ℤ) (s : Shared)
      → stored (post task priority s).1 ≡ stored s + count (accepted_by (posts task priority) s)
  unfolding post stored accepted_by count
  stored-post none priority s = ground arith
  stored-post (some fn) priority s =
      ground (arith, count-push (record { priority = priority; seq = s.next_seq; fn = fn }) s.queue)

  stored-shutdown : (drain : Bool) (s : Shared) → stored (shutdown drain s) ≡ stored s
  unfolding shutdown stored count
  stored-shutdown true s = ground arith
  stored-shutdown false s = ground (arith, count-append s.queue s.dropped)

  stored-take_task :
      (q : List Task) (s : Shared) (ws : List Worker)
      → q ≡ s.queue
      → let (v, t) = take_task q s in
        stored t + count_running (v ∷ ws) ≡ stored s + count_running ws
  unfolding take_task stored count count_running
  stored-take_task [] s ws e = elim (Bool-cases s.stopping) [
    | inl f ↦ rw f (omega arith)
    | inr f ↦ rw f (omega arith)
  ]
  stored-take_task (t ∷ q) s ws e = ground (arith, ap count e)

  stored-worker_step :
      (w : Worker) (s : Shared) (ws : List Worker)
      → let (v, t) = worker_step w s in
        stored t + count_running (v ∷ ws) ≡ stored s + count_running (w ∷ ws)
  unfolding worker_step stored count count_running
  stored-worker_step waiting s ws = omega (arith, stored-take_task s.queue s ws refl)
  stored-worker_step (busy_with t) s ws = ground arith
  stored-worker_step ended s ws = refl

  stored-step_at :
      (i : ℕ) (ws : List Worker) (s : Shared)
      → let (vs, t) = step_at i ws s in stored t + count_running vs ≡ stored s + count_running ws
  unfolding step_at count_running
  stored-step_at i [] s = refl
  stored-step_at zero (w ∷ ws) s = stored-worker_step w s ws
  stored-step_at (suc i) (w ∷ ws) s = omega (arith, stored-step_at i ws s)

  -- The tasks that pass the test, wherever they are.
  unfoldable pub kept : Pool → ℕ
  kept p = stored p.shared + count_running p.workers

  kept-act : (a : Action) (p : Pool) → kept (act a p) ≡ kept p + count (accepted_by a p.shared)
  unfolding kept act count accepted_by
  kept-act (posts task priority) p = omega (arith, stored-post task priority p.shared)
  kept-act (shuts_down drain) p = omega (arith, stored-shutdown drain p.shared)
  kept-act (works i) p = omega (arith, stored-step_at i p.workers p.shared)

  kept-run :
      (actions : List Action) (p : Pool)
      → kept (run actions p) ≡ kept p + count (accepted_in actions p)
  unfolding run accepted_in count
  kept-run [] p = omega arith
  kept-run (a ∷ rest) p = omega (
    arith,
    kept-run rest (act a p),
    kept-act a p,
    count-append (accepted_by a p.shared) (accepted_in rest (act a p)),
  )

  running-waiting_workers : (n : ℕ) → count_running (waiting_workers n) ≡ 0
  unfolding count_running waiting_workers
  running-waiting_workers zero = refl
  running-waiting_workers (suc n) = omega (arith, running-waiting_workers n)

  kept-started : (n : ℕ) → kept (started n) ≡ 0
  unfolding kept started stored count
  kept-started n = omega (arith, running-waiting_workers (suc n))

  -- Whatever the threads of a pool do, every task that post has accepted is in exactly one place:
  -- in the queue, run by a worker, finished, or dropped by a shutdown that does not drain. (A task
  -- is told apart by any test: for each test as many of the accepted tasks pass as of the tasks in
  -- these places.)
  pub accepted-kept :
      (n : ℕ) (actions : List Action)
      → let p = run actions (started n) in
        count (accepted_in actions (started n))
        ≡ count p.shared.queue
          + count_running p.workers
          + count p.shared.finished
          + count p.shared.dropped
  unfolding kept stored
  accepted-kept n actions = omega (arith, kept-run actions (started n), kept-started n)

-- Every task.
abbrev pub any : Task → Bool
any t = true

busy-take_task :
    (q : List Task) (s : Shared) (ws : List Worker)
    → let (v, t) = take_task q s in t.busy ≡ running_of any v + s.busy
unfolding take_task
busy-take_task [] s ws = elim (Bool-cases s.stopping) [
  | inl f ↦ rw f (omega arith)
  | inr f ↦ rw f (omega arith)
]
busy-take_task (t ∷ q) s ws = omega arith

busy-step_at :
    (k i : ℕ) (ws : List Worker) (s : Shared)
    → s.busy ≡ k + count_running any ws
    → (step_at i ws s).1.busy ≡ k + count_running any (step_at i ws s).0
unfolding step_at worker_step count_running
busy-step_at k i [] s h = h
busy-step_at k zero (waiting ∷ ws) s h = omega (arith, busy-take_task s.queue s ws)
busy-step_at k zero (busy_with t ∷ ws) s h = omega arith
busy-step_at k zero (ended ∷ ws) s h = h
busy-step_at k (suc i) (w ∷ ws) s h =
    omega (arith, busy-step_at (k + running_of any w) i ws s (omega arith))

busy-act :
    (a : Action) (p : Pool)
    → p.shared.busy ≡ count_running any p.workers
    → (act a p).shared.busy ≡ count_running any (act a p).workers
unfolding act post shutdown
busy-act (posts none priority) p h = h
busy-act (posts (some fn) priority) p h = ground (arith, h)
busy-act (shuts_down drain) p h = ground (arith, h)
busy-act (works i) p h = omega (arith, busy-step_at 0 i p.workers p.shared (omega arith))

pub busy-run :
    (actions : List Action) (p : Pool)
    → p.shared.busy ≡ count_running any p.workers
    → (run actions p).shared.busy ≡ count_running any (run actions p).workers
unfolding run
busy-run [] p h = h
busy-run (a ∷ rest) p h = busy-run rest (act a p) (busy-act a p h)

-- If no worker runs a task, none runs a task that passes a test.
none_running :
    (test : Task → Bool) (ws : List Worker) → count_running any ws ≡ 0 → count_running test ws ≡ 0
unfolding count_running
none_running test [] h = refl
none_running test (waiting ∷ ws) h = omega (arith, none_running test ws (omega arith))
none_running test (busy_with t ∷ ws) h = absurd (omega arith)
none_running test (ended ∷ ws) h = omega (arith, none_running test ws (omega arith))

pub busy-started : (n : ℕ) → (started n).shared.busy ≡ count_running any (started n).workers
unfolding started
busy-started n = sym (running-waiting_workers any (suc n))

idle-empty : (s : Shared) → is_idle s ≡ true → (s.queue ≡ []) × (s.busy ≡ 0)
unfolding is_idle
idle-empty s h = (go s.queue (ground (arith, h)), ground (arith, h))
  where
    go : (q : List Task) → is_empty q ≡ true → q ≡ []
    go [] e = refl
    go (t ∷ q) e = cc e

-- When wait_idle finds the pool idle, every task accepted so far has been run to its end, or was
-- dropped by a shutdown that does not drain.
pub accepted-idle :
    (test : Task → Bool) (n : ℕ) (actions : List Action)
    → let p = run actions (started n) in
      is_idle p.shared ≡ true
      → count test (accepted_in actions (started n))
        ≡ count test p.shared.finished + count test p.shared.dropped
unfolding count
accepted-idle test n actions h =
    let p = run actions (started n) in
    let (empty, quiet) = idle-empty p.shared h in
    let idle =
      none_running test p.workers (omega (arith, busy-run actions (started n) (busy-started n))) in
    let queued : count test p.shared.queue ≡ 0 = ap (count test) empty in
    omega (arith, accepted-kept test n actions)
