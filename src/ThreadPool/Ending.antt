-- ===== src/ThreadPool/Ending.antt =====
-- components/thread_pool: how shutdown comes to its end, and what is done by then.
use openember.Prelude.{
  ℕ, zero, suc, ◌+◌, ◌*◌, ◌≡◌, refl, ap, true, List, [], ◌∷◌, none, some, arith, length, All,
}
use openember.ThreadPool.Pool.{
  Task, Worker, waiting, busy_with, ended, Shared, Pool, post, shutdown, take_task, worker_step,
  step_at, Action, posts, shuts_down, works, act, run,
}

-- The critical sections that a worker still has before it, the tasks of the queue aside.
abbrev pub sections_of : Worker → ℕ
sections_of waiting = 1
sections_of (busy_with t) = 2
sections_of ended = 0

unfoldable pub sections : List Worker → ℕ
sections [] = 0
sections (w ∷ ws) = sections_of w + sections ws

-- The same, for the pool: each task of the queue takes two more.
abbrev pub left : List Worker → Shared → ℕ
left ws s = 2 * length s.queue + sections ws

-- Whether the worker at a place has not ended.
unfoldable pub moves_at : ℕ → List Worker → ℕ
moves_at i [] = 0
moves_at zero (waiting ∷ ws) = 1
moves_at zero (busy_with t ∷ ws) = 1
moves_at zero (ended ∷ ws) = 0
moves_at (suc i) (w ∷ ws) = moves_at i ws

unfoldable pub moves : Action → Pool → ℕ
moves (posts task priority) p = 0
moves (shuts_down drain) p = 0
moves (works i) p = moves_at i p.workers

-- How many actions of a run are steps of a worker that has not ended.
unfoldable pub moves_in : List Action → Pool → ℕ
moves_in [] p = 0
moves_in (a ∷ rest) p = moves a p + moves_in rest (act a p)

left-take_task :
    (q : List Task) (s : Shared)
    → q ≡ s.queue
    → s.stopping ≡ true
    → (2 * length (take_task q s).1.queue + sections_of (take_task q s).0 + 1
        ≡ 2 * length s.queue + 1)
      × ((take_task q s).1.stopping ≡ true)
unfolding take_task
left-take_task [] s e h = rw h (omega arith, refl)
left-take_task (t ∷ q) s e h = (omega (arith, ap length e), h)

left-step_at :
    (i : ℕ) (ws : List Worker) (s : Shared)
    → s.stopping ≡ true
    → (left (step_at i ws s).0 (step_at i ws s).1 + moves_at i ws ≡ left ws s)
      × ((step_at i ws s).1.stopping ≡ true)
unfolding step_at worker_step sections moves_at
left-step_at i [] s h = (omega arith, h)
left-step_at zero (waiting ∷ ws) s h =
    let (e, k) = left-take_task s.queue s refl h in (omega arith, k)
left-step_at zero (busy_with t ∷ ws) s h = (omega arith, h)
left-step_at zero (ended ∷ ws) s h = (omega arith, h)
left-step_at (suc i) (w ∷ ws) s h = let (e, k) = left-step_at i ws s h in (omega arith, k)

left-act :
    (a : Action) (p : Pool)
    → p.shared.stopping ≡ true
    → (left (act a p).workers (act a p).shared + moves a p ≡ left p.workers p.shared)
      × ((act a p).shared.stopping ≡ true)
unfolding act moves post shutdown
left-act (posts none priority) p h = (omega arith, h)
left-act (posts (some fn) priority) p h = ground (arith, h)
left-act (shuts_down drain) p h = rw h (omega arith, refl)
left-act (works i) p h = left-step_at i p.workers p.shared h

abbrev pub HasEnded : Worker → Type 0
HasEnded waiting = ⊥
HasEnded (busy_with t) = ⊥
HasEnded ended = Unit

pub no_sections : (ws : List Worker) → sections ws ≡ 0 → All HasEnded ws
unfolding sections
no_sections [] h = tt
no_sections (waiting ∷ ws) h = absurd (omega arith)
no_sections (busy_with t ∷ ws) h = absurd (omega arith)
no_sections (ended ∷ ws) h = (tt, no_sections ws (omega arith))

pub ended_sections : (ws : List Worker) → All HasEnded ws → sections ws ≡ 0
unfolding sections
ended_sections [] h = refl
ended_sections (waiting ∷ ws) h = absurd h.0
ended_sections (busy_with t ∷ ws) h = absurd h.0
ended_sections (ended ∷ ws) h = omega (arith, ended_sections ws h.1)

-- Each step of a worker that has not ended takes one from what is left, and nothing else does.
pub left-moves_in :
    (actions : List Action) (p : Pool)
    → p.shared.stopping ≡ true
    → left (run actions p).workers (run actions p).shared + moves_in actions p
      ≡ left p.workers p.shared
unfolding run moves_in
left-moves_in [] p h = omega arith
left-moves_in (a ∷ rest) p h =
    let (e, k) = left-act a p h in omega (arith, left-moves_in rest (act a p) k)
