-- ===== src/ThreadPool/Progress.antt =====
-- components/thread_pool: how many steps a shutdown takes until its joins return.
use openember.Prelude.{ℕ, suc, ◌+◌, ◌≡◌, ◌∙◌, ap, ◌↔◌, true, List, arith, length, All}
use openember.ThreadPool.Pool.{Action, run, started}
use openember.ThreadPool.Ending.{
  HasEnded, left, moves_in, no_sections, ended_sections, left-moves_in,
}
use openember.ThreadPool.Draining.{
  run-AllEndsClosed, started-AllEndsClosed, length-run, length-waiting_workers, IsClosed-ended,
}

-- Once a pool that was started is stopping, its workers have exactly as many steps before them as
-- its tasks and its workers have critical sections left, in whatever order they come and whatever
-- else is called: a run never has more steps of workers that have not ended, and when it has just as
-- many, and not before, every worker has ended, so that the joins return.
pub left-run :
    (n : ℕ) (before actions : List Action)
    → (run before (started n)).shared.stopping ≡ true
    → let p = run before (started n) in
      let q = run actions p in
      (left q.workers q.shared + moves_in actions p ≡ left p.workers p.shared)
      × (All HasEnded q.workers ↔ (moves_in actions p ≡ left p.workers p.shared))
unfolding started
left-run n before actions h =
    let p = run before (started n) in
    let q = run actions p in
    let total = left-moves_in actions p h in
    let many : length q.workers ≡ suc n =
      length-run actions p ∙ length-run before (started n) ∙ length-waiting_workers (suc n) in
    let kept =
      run-AllEndsClosed actions p
        (run-AllEndsClosed before (started n) (started-AllEndsClosed (suc n) (started n).shared)) in
    (
      total,
      (
        λ e.
            let empty : length q.shared.queue ≡ 0 =
              ap (λ ts. length ts) (IsClosed-ended q.workers q.shared (omega arith) e kept).1 in
            let none_left = ended_sections q.workers e in omega (arith, total, empty, none_left),
        λ m. no_sections q.workers (omega (arith, total)),
      ),
    )
