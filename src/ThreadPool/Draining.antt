-- ===== src/ThreadPool/Draining.antt =====
-- components/thread_pool: what a shutdown that drains has done once its joins return.
use openember.Prelude.{
  ℕ, zero, suc, ◌≡◌, ◌<◌, refl, sym, ap, ◌∙◌, Bool, true, false, Bool-cases, inl, inr, List, [],
  ◌∷◌, Option, none, some, arith, length, All,
}
use openember.Prelude.Int.{ℤ}
use openember.ThreadPool.Pool.{
  Task, Worker, waiting, busy_with, ended, Shared, Pool, post, shutdown, take_task, worker_step,
  step_at, Action, posts, shuts_down, works, act, run, started, waiting_workers,
}
use openember.ThreadPool.Tasks.{count, count_running, accepted_in, accepted-kept}
use openember.ThreadPool.Ending.{HasEnded}

-- Nothing will be queued any more.
abbrev pub IsClosed : Shared → Type 0
IsClosed s = (s.stopping ≡ true) × (s.queue ≡ [])

-- A worker ends in a closed pool only.
abbrev pub EndsClosed : Shared → Worker → Type 0
EndsClosed s waiting = Unit
EndsClosed s (busy_with t) = Unit
EndsClosed s ended = IsClosed s

abbrev pub AllEndsClosed : List Worker → Shared → Type 0
AllEndsClosed ws s = All (EndsClosed s) ws

later-AllEndsClosed :
    (s t : Shared) (ws : List Worker)
    → (IsClosed s → IsClosed t)
    → AllEndsClosed ws s
    → AllEndsClosed ws t
later-AllEndsClosed s t [] k h = tt
later-AllEndsClosed s t (waiting ∷ ws) k h = (tt, later-AllEndsClosed s t ws k h.1)
later-AllEndsClosed s t (busy_with u ∷ ws) k h = (tt, later-AllEndsClosed s t ws k h.1)
later-AllEndsClosed s t (ended ∷ ws) k h = (k h.0, later-AllEndsClosed s t ws k h.1)

post-IsClosed :
    (task : Option ℕ) (priority : ℤ) (s : Shared) → IsClosed s → IsClosed (post task priority s).1
unfolding post
post-IsClosed none priority s h = h
post-IsClosed (some fn) priority s h = elim (Bool-cases s.accept) [
  | inl e ↦ rw (e, h.0) (refl, h.1)
  | inr e ↦ rw e h
]

shutdown-IsClosed : (drain : Bool) (s : Shared) → IsClosed s → IsClosed (shutdown drain s)
unfolding shutdown
shutdown-IsClosed drain s h = rw h.0 (refl, h.1)

take_task-closes :
    (q : List Task) (s : Shared)
    → q ≡ s.queue
    → EndsClosed (take_task q s).1 (take_task q s).0 × (IsClosed s → IsClosed (take_task q s).1)
unfolding take_task
take_task-closes [] s e = elim (Bool-cases s.stopping) [
  | inl f ↦ rw f ((refl, sym e), λ h. h)
  | inr f ↦ rw f (tt, λ h. h)
]
take_task-closes (t ∷ q) s e = (tt, λ h. absurd (cc (e, h.1)))

worker_step-closes :
    (w : Worker) (s : Shared)
    → EndsClosed s w
    → EndsClosed (worker_step w s).1 (worker_step w s).0
      × (IsClosed s → IsClosed (worker_step w s).1)
unfolding worker_step
worker_step-closes waiting s h = take_task-closes s.queue s refl
worker_step-closes (busy_with t) s h = (tt, λ k. k)
worker_step-closes ended s h = (h, λ k. k)

step_at-AllEndsClosed :
    (i : ℕ) (ws : List Worker) (s : Shared)
    → AllEndsClosed ws s
    → AllEndsClosed (step_at i ws s).0 (step_at i ws s).1
      × (IsClosed s → IsClosed (step_at i ws s).1)
unfolding step_at
step_at-AllEndsClosed i [] s h = (tt, λ k. k)
step_at-AllEndsClosed zero (w ∷ ws) s h =
    let (e, k) = worker_step-closes w s h.0 in
    ((e, later-AllEndsClosed s (worker_step w s).1 ws k h.1), k)
step_at-AllEndsClosed (suc i) (w ∷ ws) s h =
    let (e, k) = step_at-AllEndsClosed i ws s h.1 in
    (((later-AllEndsClosed s (step_at i ws s).1 (w ∷ []) k (h.0, tt)).0, e), k)

act-AllEndsClosed :
    (a : Action) (p : Pool)
    → AllEndsClosed p.workers p.shared
    → AllEndsClosed (act a p).workers (act a p).shared
unfolding act
act-AllEndsClosed (posts task priority) p h =
    later-AllEndsClosed p.shared (post task priority p.shared).1 p.workers
      (post-IsClosed task priority p.shared) h
act-AllEndsClosed (shuts_down drain) p h =
    later-AllEndsClosed p.shared (shutdown drain p.shared) p.workers
      (shutdown-IsClosed drain p.shared) h
act-AllEndsClosed (works i) p h = (step_at-AllEndsClosed i p.workers p.shared h).0

pub run-AllEndsClosed :
    (actions : List Action) (p : Pool)
    → AllEndsClosed p.workers p.shared
    → AllEndsClosed (run actions p).workers (run actions p).shared
unfolding run
run-AllEndsClosed [] p h = h
run-AllEndsClosed (a ∷ rest) p h = run-AllEndsClosed rest (act a p) (act-AllEndsClosed a p h)

pub started-AllEndsClosed : (n : ℕ) (s : Shared) → AllEndsClosed (waiting_workers n) s
unfolding waiting_workers
started-AllEndsClosed zero s = tt
started-AllEndsClosed (suc n) s = (tt, started-AllEndsClosed n s)

length-step_at : (i : ℕ) (ws : List Worker) (s : Shared) → length (step_at i ws s).0 ≡ length ws
unfolding step_at
length-step_at i [] s = refl
length-step_at zero (w ∷ ws) s = refl
length-step_at (suc i) (w ∷ ws) s = ap suc (length-step_at i ws s)

pub length-run :
    (actions : List Action) (p : Pool) → length (run actions p).workers ≡ length p.workers
unfolding run act
length-run [] p = refl
length-run (posts task priority ∷ rest) p = length-run rest (act (posts task priority) p)
length-run (shuts_down drain ∷ rest) p = length-run rest (act (shuts_down drain) p)
length-run (works i ∷ rest) p =
    length-run rest (act (works i) p) ∙ length-step_at i p.workers p.shared

-- An action is no shutdown that drops the tasks.
abbrev pub Drains : Action → Type 0
Drains (posts task priority) = Unit
Drains (shuts_down true) = Unit
Drains (shuts_down false) = ⊥
Drains (works i) = Unit

dropped-take_task : (q : List Task) (s : Shared) → (take_task q s).1.dropped ≡ s.dropped
unfolding take_task
dropped-take_task [] s = refl
dropped-take_task (t ∷ q) s = refl

dropped-step_at : (i : ℕ) (ws : List Worker) (s : Shared) → (step_at i ws s).1.dropped ≡ s.dropped
unfolding step_at worker_step
dropped-step_at i [] s = refl
dropped-step_at zero (waiting ∷ ws) s = dropped-take_task s.queue s
dropped-step_at zero (busy_with t ∷ ws) s = refl
dropped-step_at zero (ended ∷ ws) s = refl
dropped-step_at (suc i) (w ∷ ws) s = dropped-step_at i ws s

dropped-act : (a : Action) (p : Pool) → Drains a → (act a p).shared.dropped ≡ p.shared.dropped
unfolding act post shutdown
dropped-act (posts none priority) p h = refl
dropped-act (posts (some fn) priority) p h = ground arith
dropped-act (shuts_down true) p h = ground arith
dropped-act (shuts_down false) p h = absurd h
dropped-act (works i) p h = dropped-step_at i p.workers p.shared

dropped-run :
    (actions : List Action) (p : Pool)
    → All Drains actions
    → (run actions p).shared.dropped ≡ p.shared.dropped
unfolding run
dropped-run [] p h = refl
dropped-run (a ∷ rest) p h = dropped-run rest (act a p) h.1 ∙ dropped-act a p h.0

none_running : (test : Task → Bool) (ws : List Worker) → All HasEnded ws → count_running test ws ≡ 0
unfolding count_running
none_running test [] h = refl
none_running test (waiting ∷ ws) h = absurd h.0
none_running test (busy_with t ∷ ws) h = absurd h.0
none_running test (ended ∷ ws) h = omega (arith, none_running test ws h.1)

pub IsClosed-ended :
    (ws : List Worker) (s : Shared)
    → 0 < length ws
    → All HasEnded ws
    → AllEndsClosed ws s
    → IsClosed s
IsClosed-ended [] s l h k = absurd (omega arith)
IsClosed-ended (waiting ∷ ws) s l h k = absurd h.0
IsClosed-ended (busy_with t ∷ ws) s l h k = absurd h.0
IsClosed-ended (ended ∷ ws) s l h k = k.0

pub length-waiting_workers : (n : ℕ) → length (waiting_workers n) ≡ n
unfolding waiting_workers
length-waiting_workers zero = refl
length-waiting_workers (suc n) = ap suc (length-waiting_workers n)

-- If the pool is shut down only by draining, then once all its workers have ended, and the joins of
-- shutdown return, the queue is empty and every task that post has ever accepted has been run.
pub accepted-ended :
    (test : Task → Bool) (n : ℕ) (actions : List Action)
    → All Drains actions
    → let p = run actions (started n) in
      All HasEnded p.workers
      → (p.shared.queue ≡ [])
        × (count test (accepted_in actions (started n)) ≡ count test p.shared.finished)
unfolding count started
accepted-ended test n actions d h =
    let p = run actions (started n) in
    let many = length-run actions (started n) ∙ length-waiting_workers (suc n) in
    let (stops, empty) =
      IsClosed-ended p.workers p.shared (omega arith) h (
        run-AllEndsClosed actions (started n) (started-AllEndsClosed (suc n) (started n).shared)) in
    let queued : count test p.shared.queue ≡ 0 = ap (count test) empty in
    let lost : count test p.shared.dropped ≡ 0 =
      ap (count test) (dropped-run actions (started n) d) in
    let idle = none_running test p.workers h in (empty, omega (arith, accepted-kept test n actions))
