-- ===== src/Tests/Workers.antt =====
-- Runs of the pool of components/thread_pool.
use openember.Prelude.{suc, ◌+◌, ◌≡◌, ◌↔◌, refl, true, false, List, [], ◌∷◌, some, All}
use openember.Prelude.Int.{pos}
use openember.ThreadPool.Pool.{
  Task, less, waiting, busy_with, push, post, shutdown, take_task, worker_step, step_at, Action,
  posts, shuts_down, works, act, run, started, waiting_workers, is_idle,
}
use openember.ThreadPool.Order.{IsBefore, worker_step-IsBefore}
use openember.ThreadPool.Tasks.{
  any, count, count_running, accepted_in, accepted-kept, accepted-idle,
}
use openember.ThreadPool.Ending.{HasEnded, left, moves_in}
use openember.ThreadPool.Progress.{left-run}
use openember.ThreadPool.Draining.{accepted-ended}

abbrev low : Task
low = record { priority = pos 0; seq = 0; fn = 5 }

abbrev high : Task
high = record { priority = pos 2; seq = 1; fn = 6 }

abbrev two_posts : List Action
two_posts = posts (some 5) (pos 0) ∷ posts (some 6) (pos 2) ∷ []

worker_step-IsBefore_example :
    let s = (run two_posts (started 0)).shared in
    (worker_step waiting s ≡ (busy_with high, record s { queue = low ∷ []; busy = suc s.busy }))
    × All (IsBefore high) (low ∷ [])
unfolding run act post push less started
worker_step-IsBefore_example = worker_step-IsBefore 0 two_posts high (low ∷ []) refl

-- One task runs, one is dropped, and one comes too late.
abbrev cut : List Action
cut =
    posts (some 5) (pos 0)
    ∷ posts (some 6) (pos 2)
    ∷ works 0
    ∷ shuts_down false
    ∷ posts (some 7) (pos 1)
    ∷ works 0
    ∷ []

accepted-kept_example :
    let p = run cut (started 1) in
    count any (accepted_in cut (started 1))
    ≡ count any p.shared.queue
      + count_running any p.workers
      + count any p.shared.finished
      + count any p.shared.dropped
accepted-kept_example = accepted-kept any 1 cut

accepted-idle_example :
    let p = run cut (started 1) in
    count any (accepted_in cut (started 1))
    ≡ count any p.shared.finished + count any p.shared.dropped
unfolding run act post push less started waiting_workers shutdown step_at worker_step take_task
    is_idle
accepted-idle_example = accepted-idle any 1 cut refl

-- One task is queued when the pool begins to stop; its one worker has three sections left.
abbrev stop_early : List Action
stop_early = posts (some 5) (pos 0) ∷ shuts_down true ∷ []

abbrev last : List Action
last = works 0 ∷ works 0 ∷ works 0 ∷ []

left-run_example :
    let p = run stop_early (started 0) in
    let q = run last p in
    (left q.workers q.shared + moves_in last p ≡ left p.workers p.shared)
    × (All HasEnded q.workers ↔ (moves_in last p ≡ left p.workers p.shared))
unfolding run act post push started waiting_workers shutdown
left-run_example = left-run 0 stop_early last refl

abbrev whole : List Action
whole = posts (some 5) (pos 0) ∷ shuts_down true ∷ works 0 ∷ works 0 ∷ works 0 ∷ []

accepted-ended_example :
    let p = run whole (started 0) in
    (p.shared.queue ≡ [])
    × (count any (accepted_in whole (started 0)) ≡ count any p.shared.finished)
unfolding run act post push less started waiting_workers shutdown step_at worker_step take_task
accepted-ended_example = accepted-ended any 0 whole (tt, (tt, (tt, (tt, (tt, tt))))) (tt, tt)
