-- ===== src/ThreadPool/Order.antt =====
-- components/thread_pool: in which order the workers take the tasks.
use openember.Prelude.{
  ℕ, zero, suc, ◌≤◌, ◌≡◌, refl, sym, ◌∙◌, Bool, true, false, Bool-cases, inl, inr, List, [], ◌∷◌,
  Option, none, some, arith, All, not, ◌||◌, if◌then◌else◌, subst,
}
use openember.Prelude.Int.{ℤ, ◌≤ℤ◌, int_eq, int_eq→eq, int_eq_refl, eq_of_parts}
use openember.ThreadPool.Pool.{
  Task, less, Worker, waiting, busy_with, ended, Shared, Pool, push, post, shutdown, take_task,
  worker_step, step_at, Action, posts, shuts_down, works, act, run, started,
}

-- A task that may be taken although the other waits: it has no lower priority, and of two tasks of
-- one priority it is the earlier.
abbrev pub IsBefore : Task → Task → Type 0
IsBefore t u = (u.priority ≤ℤ t.priority) × (u.priority ≡ t.priority → t.seq ≤ u.seq)

pub IsSorted : List Task → Type 0
IsSorted [] = Unit
IsSorted (t ∷ q) = All (IsBefore t) q × IsSorted q

priority_cases : (a b : ℤ) → a ≤ℤ b → b ≤ℤ a → a ≡ b
priority_cases a b h k = eq_of_parts a b (omega arith)

less-IsBefore : (t u : Task) → less u t ≡ true → IsBefore t u
unfolding less
less-IsBefore t u h = elim (Bool-cases (int_eq u.priority t.priority)) [
  | inl e ↦
      let same = int_eq→eq u.priority t.priority e in
      (rw same (omega arith), λ _. ground (arith, h, e))
  | inr e ↦ (ground (arith, h, e), λ k. absurd (different e k))
]
  where
    different : int_eq u.priority t.priority ≡ false → u.priority ≡ t.priority → ⊥
    different e k =
        let r : int_eq u.priority t.priority ≡ true = rw k (int_eq_refl t.priority) in cc (e, r)

not_less-IsBefore : (t u : Task) → less u t ≡ false → IsBefore u t
unfolding less
not_less-IsBefore t u h = elim (Bool-cases (int_eq u.priority t.priority)) [
  | inl e ↦
      let same = int_eq→eq u.priority t.priority e in
      (rw same (omega arith), λ _. ground (arith, h, e))
  | inr e ↦ (ground (arith, h, e), λ k. absurd (different e k))
]
  where
    different : int_eq u.priority t.priority ≡ false → t.priority ≡ u.priority → ⊥
    different e k =
        let r : int_eq u.priority t.priority ≡ true = rw k (int_eq_refl u.priority) in cc (e, r)

IsBefore-trans : (t u v : Task) → IsBefore t u → IsBefore u v → IsBefore t v
IsBefore-trans t u v h k = (
  omega arith,
  λ e.
      let same : u.priority ≡ t.priority =
        priority_cases u.priority t.priority h.0 (rw (sym e) k.0) in
      let a = h.1 same in let b = k.1 (e ∙ sym same) in omega arith,
)

push-All :
    (t u : Task) (q : List Task) → IsBefore t u → All (IsBefore t) q → All (IsBefore t) (push u q)
unfolding push
push-All t u [] h k = (h, tt)
push-All t u (v ∷ q) h k = elim (Bool-cases (less v u)) [
  | inl e ↦ rw e (h, k)
  | inr e ↦ rw e (k.0, push-All t u q h k.1)
]

IsBefore-All : (t u : Task) (q : List Task) → IsBefore t u → All (IsBefore u) q → All (IsBefore t) q
IsBefore-All t u [] h k = tt
IsBefore-All t u (v ∷ q) h k = (IsBefore-trans t u v h k.0, IsBefore-All t u q h k.1)

push-IsSorted : (t : Task) (q : List Task) → IsSorted q → IsSorted (push t q)
unfolding push IsSorted
push-IsSorted t [] h = (tt, tt)
push-IsSorted t (u ∷ q) h = elim (Bool-cases (less u t)) [
  | inl e ↦ let b = less-IsBefore t u e in rw e ((b, IsBefore-All t u q b h.0), h)
  | inr e ↦ rw e (push-All u t q (not_less-IsBefore t u e) h.0, push-IsSorted t q h.1)
]

post-IsSorted :
    (task : Option ℕ) (priority : ℤ) (s : Shared)
    → IsSorted s.queue
    → IsSorted (post task priority s).1.queue
unfolding post
post-IsSorted none priority s h = h
post-IsSorted (some fn) priority s h = elim (Bool-cases (not s.accept || s.stopping)) [
  | inl e ↦ rw e h
  | inr e ↦ rw e (push-IsSorted _ s.queue h)
]

shutdown-IsSorted :
    (drain : Bool) (s : Shared) → IsSorted s.queue → IsSorted (shutdown drain s).queue
unfolding shutdown IsSorted
shutdown-IsSorted drain s h = elim (Bool-cases s.stopping) [
  | inl e ↦ rw e h
  | inr e ↦ rw e (go drain)
]
  where
    go : (d : Bool) → IsSorted (if d then s.queue else [])
    go true = h
    go false = tt

take_task-IsSorted :
    (q : List Task) (s : Shared) → q ≡ s.queue → IsSorted q → IsSorted (take_task q s).1.queue
unfolding take_task IsSorted
take_task-IsSorted [] s e h = rw (← e) tt
take_task-IsSorted (t ∷ q) s e h = h.1

worker_step-IsSorted :
    (w : Worker) (s : Shared) → IsSorted s.queue → IsSorted (worker_step w s).1.queue
unfolding worker_step
worker_step-IsSorted waiting s h = take_task-IsSorted s.queue s refl h
worker_step-IsSorted (busy_with t) s h = h
worker_step-IsSorted ended s h = h

step_at-IsSorted :
    (i : ℕ) (ws : List Worker) (s : Shared) → IsSorted s.queue → IsSorted (step_at i ws s).1.queue
unfolding step_at
step_at-IsSorted i [] s h = h
step_at-IsSorted zero (w ∷ ws) s h = worker_step-IsSorted w s h
step_at-IsSorted (suc i) (w ∷ ws) s h = step_at-IsSorted i ws s h

run-IsSorted :
    (actions : List Action) (p : Pool)
    → IsSorted p.shared.queue
    → IsSorted (run actions p).shared.queue
unfolding run act
run-IsSorted [] p h = h
run-IsSorted (posts task priority ∷ actions) p h =
    run-IsSorted actions _ (post-IsSorted task priority p.shared h)
run-IsSorted (shuts_down drain ∷ actions) p h =
    run-IsSorted actions _ (shutdown-IsSorted drain p.shared h)
run-IsSorted (works i ∷ actions) p h =
    run-IsSorted actions _ (step_at-IsSorted i p.workers p.shared h)

-- Whatever the threads of a pool do, the task that a waiting worker takes next has no lower
-- priority than any task that stays in the queue, and of those with its own priority it has the
-- least sequence number.
pub worker_step-IsBefore :
    (n : ℕ) (actions : List Action) (t : Task) (q : List Task)
    → let s = (run actions (started n)).shared in
      s.queue ≡ t ∷ q
      → (worker_step waiting s ≡ (busy_with t, record s { queue = q; busy = suc s.busy }))
        × All (IsBefore t) q
unfolding worker_step take_task IsSorted started
worker_step-IsBefore n actions t q e =
    let sorted : IsSorted (t ∷ q) = subst IsSorted e (run-IsSorted actions (started n) tt) in
    (rw e refl, sorted.0)
