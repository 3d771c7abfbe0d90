-- ===== src/Launch/Start.antt =====
-- system/launch_manager/process_manager.cpp: StartAll, StartProcess and StartOne.
use openember.Prelude.{
  ℕ, suc, Bool, true, false, ◌&&◌, ◌||◌, List, [], ◌∷◌, ◌++◌, none, some, map, if◌then◌else◌,
}
use openember.Prelude.Int.{pos, is_positive}
use openember.Prelude.Text.{Text, find, codes, is_empty}
use openember.Launch.Spec.{ProcessSpec}
use openember.Launch.World.{
  Os, Fork, child, fork_failed, starting, running, failed, ProcessEvent, World, called,
}
use openember.Launch.Process.{
  ManagedProcess, Manager, managed, make_event, emit_event, visit, named,
}

-- What the child does after the fork, up to the exec.
pub data ChildAction : Type 0 where
  chdir : Text → ChildAction
  setenv : Text → Text → ChildAction
  execv execvp : Text → List Text → ChildAction
  exits : ℕ → ChildAction

-- BuildArgv, without the null at the end.
unfoldable pub build_argv : ProcessSpec → List Text
build_argv s = s.command ∷ s.args

-- StartOne in the child. `moved` tells whether chdir() succeeds; an exec that returns is followed
-- by the exit.
unfoldable pub child_actions : Bool → ProcessSpec → List ChildAction
unfolding build_argv
child_actions moved s =
    let exec : ChildAction = elim (find b'/' s.command) [
      | some i ↦ execv s.command (build_argv s)
      | none ↦ execvp s.command (build_argv s)
    ] in
    let run = map (λ (kv : Text × Text). setenv kv.0 kv.1) s.env ++ exec ∷ exits 127 ∷ [] in
    if is_empty s.working_directory
    then run
    else chdir s.working_directory ∷ (if moved then run else exits 127 ∷ [])

-- <errno.h>
abbrev pub einval : ℕ
einval = 22

abbrev pub default_name : ProcessSpec → ProcessSpec
default_name s = if is_empty s.name then record s { name = s.command } else s

module _ (os : Os) where
  -- StartOne after the fork, in the parent.
  unfoldable pub forked : Fork → ManagedProcess → World → ManagedProcess × World × Bool
  forked (fork_failed errno) p w =
      let q = record p { state = failed } in
      (
        q,
        emit_event q failed (pos errno) (os.unix_time_ns w.calls) (os.strerror errno) (called w),
        false,
      )
  forked (child n) p w =
      let q = record p { pid = pos (suc n); state = running; start_time = os.steady_now w.calls } in
      (q, emit_event q running (pos 0) 0 (codes "running") (called w), true)

  -- StartOne.
  unfoldable pub start_one : ManagedProcess → World → ManagedProcess × World × Bool
  start_one p w =
      let q = record p {
        state = starting;
        start_time_unix_ns = os.unix_time_ns w.calls;
        stop_time_unix_ns = 0;
        has_heartbeat = false;
        intentional_stop = false;
      } in
      let v = emit_event q starting (pos 0) 0 (codes "starting") (called w) in
      if is_positive p.pid then (p, w, true) else forked (os.fork v.calls) q (called v)

  -- StartAll: every process is started, also after one has failed.
  unfoldable pub start_each : List ManagedProcess → World → List ManagedProcess × World × Bool
  start_each [] w = ([], w, true)
  start_each (p ∷ ps) w =
      let (q, w₁, started) = start_one p w in
      let (qs, w₂, rest_started) = start_each ps w₁ in (q ∷ qs, w₂, started && rest_started)

  unfoldable pub start_all : Manager → Manager × Bool
  start_all m =
      let (ps, w, started) = start_each m.processes m.world in
      (record m { processes = ps; world = w }, started)

  -- What StartProcess does with the process of that name.
  unfoldable pub start_existing :
      ProcessSpec → World → ManagedProcess → ManagedProcess × (World × ProcessEvent)
  start_existing spec w p =
      let (q, w', started) = start_one (record p { spec = spec }) w in
      if is_positive p.pid
      then (
        p,
        (w, make_event p p.state (pos 0) p.stop_time_unix_ns (codes "process already running")),
      )
      else (q, (w', make_event q q.state (pos 0) q.stop_time_unix_ns (codes "start requested")))

  unfoldable pub start_named : ProcessSpec → Manager → Manager × ProcessEvent
  start_named s m =
      let (q, w, started) = start_one (managed s) m.world in
      elim (visit (named s.name) (start_existing s m.world) m.processes) [
        | some (ps, (w', e)) ↦ (record m { processes = ps; world = w' }, e)
        | none ↦ (
          record m { processes = m.processes ++ q ∷ []; world = w },
          make_event q q.state (pos 0) q.stop_time_unix_ns (codes "start requested"),
        )
      ]

  -- StartProcess.
  unfoldable pub start_process : ProcessSpec → Manager → Manager × ProcessEvent
  start_process s₀ m =
      let s = default_name s₀ in
      let invalid = record (managed s) { state = failed } in
      let e =
        make_event invalid failed (pos einval) (os.unix_time_ns m.world.calls)
          (codes "process name and command are required") in
      if is_empty s.name || is_empty s.command
      then (record m { world = called m.world }, e)
      else start_named s m
