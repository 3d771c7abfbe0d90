-- ===== src/HardwareInterface/JointStop.antt =====
-- services/hardware_interface/endpoints/joint_controller_endpoint.cpp: a stopped endpoint, and the
-- endpoint as one of the service's.
use openember.Prelude.{
  ℕ, ◌≡◌, ◌≢◌, ◌⊎◌, ◌∙◌, subst, ◌∷◌, refl, sym, ap, Bool, true, false, ◌||◌, inl, inr, List, [],
  Option, none, some, if◌then◌else◌, if_cases, All,
}
use openember.Prelude.Text.{codes, is_empty, text_eq}
use openember.Actuator.Joint.{Double, Outcome, success, failure, JointInfo}
use openember.Actuator.Controller.{Controller, apply_safe_output, start, stop}
use openember.Actuator.Rest.{IsAtRest, map-at_rest}
use openember.HardwareInterface.Endpoint.{
  EndpointConfig, EndpointState, failed, stopped, running, created, configured, stopping,
  EndpointStatus, stopped_status, HardwareEndpoint,
}
use openember.HardwareInterface.JointEndpoint.{
  JointEndpoint, new_endpoint, configure, start_joints, after_step, run_step, is_timeout,
  after_read, timed, answered, handle_command, update_status_from_controller,
}
use openember.HardwareInterface.JointTurns.{
  Turn, steps, reads, wakes, handles, turn, turns, Meanwhile, disable_joints, stop_controller,
  stop_joints,
}
use openember.Actuator.Read.{ReadResult, has_read, fails, waits, read_state, read_woken}
use openember.Actuator.Step.{step}
use openember.Actuator.Command.{set_command}

module _ (double : Double) where
  open double use {Real}

  -- A stopped endpoint drives nothing.
  abbrev pub IsSilenced : JointEndpoint double → Type 0
  IsSilenced e =
      (e.controller.running ≡ false)
      × (e.controller.enabled ≡ false)
      × All (IsAtRest double) e.controller.joint_states
      × (e.running ≡ false)

  -- The end of a stop that began in a state.
  abbrev pub EndsAs : EndpointState → EndpointStatus → Type 0
  EndsAs t s =
      ((t ≡ failed) × (s.state ≡ failed))
      ⊎ ((t ≢ failed) × (s.state ≡ stopped) × (s.message ≡ codes "stopped"))

  -- What a turn leaves alone.
  abbrev Keeps : JointEndpoint double → JointEndpoint double → Type 0
  Keeps e f = (f.status.state ≡ e.status.state) × (f.running ≡ e.running)

  after_read-Keeps :
      (published : Bool) (later : ℕ) (e : JointEndpoint double)
      (r : ReadResult double × Controller double)
      → Keeps e (after_read double published later e r)
  unfolding update_status_from_controller
  after_read-Keeps published later e (waits, c) = (refl, refl)
  after_read-Keeps published later e (fails error, c) =
      if_cases (λ (s : EndpointStatus). (s.state ≡ e.status.state) × (e.running ≡ e.running))
        (is_timeout double error.code) (λ h. (refl, refl)) (λ h. (refl, refl))
  after_read-Keeps true later e (has_read state, c) = (refl, refl)
  after_read-Keeps false later e (has_read state, c) = (refl, refl)

  after_step-Keeps :
      (e : JointEndpoint double) (r : Outcome × Controller double)
      → Keeps e (after_step double e r).1
  after_step-Keeps e (success, c) = (refl, refl)
  after_step-Keeps e (failure error, c) = (refl, refl)

  answered_state :
      (at : ℕ) (o : Outcome) (s : EndpointStatus) → (answered double at o s).state ≡ s.state
  answered_state at success s = refl
  answered_state at (failure error) s = refl

  turn-Keeps : (t : Turn double) (e : JointEndpoint double) → Keeps e (turn double t e)
  unfolding turn run_step handle_command
  turn-Keeps (steps now now_ns) e = after_step-Keeps e (step double now now_ns e.controller)
  turn-Keeps (reads published later period first at now) e =
      after_read-Keeps published later e (read_state double period first at now e.controller)
  turn-Keeps (wakes published later period second at now) e =
      after_read-Keeps published later e (read_woken double period second at now e.controller)
  turn-Keeps (handles now message) e = (
    answered_state (timed double now message).command_time_monotonic_ns
        (set_command double now (timed double now message) e.controller).0 e.status,
    refl,
  )

  turns-Keeps : (ts : List (Turn double)) (e : JointEndpoint double) → Keeps e (turns double ts e)
  unfolding turns
  turns-Keeps [] e = (refl, refl)
  turns-Keeps (t ∷ ts) e =
      let (s, r) = turn-Keeps t e in
      let (s', r') = turns-Keeps ts (turn double t e) in (s' ∙ s, r' ∙ r)

  after_read-controller :
      (published : Bool) (later : ℕ) (e : JointEndpoint double)
      (r : ReadResult double × Controller double)
      → (after_read double published later e r).controller ≡ r.1
  after_read-controller published later e (waits, c) = refl
  after_read-controller published later e (fails error, c) = refl
  after_read-controller published later e (has_read state, c) = refl

  after_step-controller :
      (e : JointEndpoint double) (r : Outcome × Controller double)
      → (after_step double e r).1.controller ≡ r.1
  after_step-controller e (success, c) = refl
  after_step-controller e (failure error, c) = refl

  -- A controller that does not run is not moved.
  turn-stopped :
      (t : Turn double) (e : JointEndpoint double)
      → e.controller.running ≡ false
      → (turn double t e).controller ≡ e.controller
  unfolding turn run_step handle_command step read_state read_woken set_command
  turn-stopped (steps now now_ns) e h =
      after_step-controller e (step double now now_ns e.controller) ∙ (rw h refl)
  turn-stopped (reads published later period first at now) e h =
      after_read-controller published later e (read_state double period first at now e.controller)
      ∙ (rw h refl)
  turn-stopped (wakes published later period second at now) e h =
      after_read-controller published later e (read_woken double period second at now e.controller)
      ∙ (rw h refl)
  turn-stopped (handles now message) e h = rw h refl

  turns-stopped :
      (ts : List (Turn double)) (e : JointEndpoint double)
      → e.controller.running ≡ false
      → (turns double ts e).controller ≡ e.controller
  unfolding turns
  turns-stopped [] e h = refl
  turns-stopped (t ∷ ts) e h =
      let same = turn-stopped t e h in
      turns-stopped ts (turn double t e) (ap (λ (c : Controller double). c.running) same ∙ h) ∙ same

  stopped_status-EndsAs :
      (t : EndpointState) (s : EndpointStatus) → s.state ≡ t → EndsAs t (stopped_status s)
  stopped_status-EndsAs failed s e = inl (refl, rw e refl)
  stopped_status-EndsAs stopped s e = inr (λ k. cc k, rw e refl, rw e refl)
  stopped_status-EndsAs running s e = inr (λ k. cc k, rw e refl, rw e refl)
  stopped_status-EndsAs created s e = inr (λ k. cc k, rw e refl, rw e refl)
  stopped_status-EndsAs configured s e = inr (λ k. cc k, rw e refl, rw e refl)
  stopped_status-EndsAs stopping s e = inr (λ k. cc k, rw e refl, rw e refl)

  stop-IsSilenced :
      (c : Controller double)
      → ((stop double c).running ≡ false)
        × ((stop double c).enabled ≡ false)
        × All (IsAtRest double) (stop double c).joint_states
  unfolding stop apply_safe_output
  stop-IsSilenced c = (refl, refl, map-at_rest double c.joint_states)

  -- Whatever state an endpoint is in, and whatever its thread and its subscriber do while it stops,
  -- after Stop its controller is stopped with its output off and every joint at rest, and its flag
  -- for the thread is down. If its state was `error` it still is, and otherwise it is `stopped`, with
  -- this as its message.
  pub stop_joints-IsSilenced :
      (meanwhile : Meanwhile double) (e : JointEndpoint double)
      → IsSilenced (stop_joints double meanwhile e)
        × EndsAs e.status.state (stop_joints double meanwhile e).status
  unfolding stop_joints
  stop_joints-IsSilenced meanwhile e =
      let asked = turns double meanwhile.before_disable (record e { running = false }) in
      let disabled = turns double meanwhile.before_stop (disable_joints double asked) in
      let idle = stop_controller double disabled in
      let kept = turns-Keeps meanwhile.before_disable (record e { running = false }) in
      let kept' = turns-Keeps meanwhile.before_stop (disable_joints double asked) in
      let last = turns-Keeps meanwhile.before_end idle in
      let silent = stop-IsSilenced disabled.controller in
      let same = turns-stopped meanwhile.before_end idle silent.0 in
      let (r, n, j) =
        subst
          (λ (c : Controller double).
            (c.running ≡ false) × (c.enabled ≡ false) × All (IsAtRest double) c.joint_states)
          (sym same) silent in
      (
        (r, n, j, last.1 ∙ kept'.1 ∙ kept.1),
        stopped_status-EndsAs e.status.state (turns double meanwhile.before_end idle).status
            (last.0 ∙ kept'.0 ∙ kept.0),
      )

  pub start_joints_runs :
      (now : ℕ) (e : JointEndpoint double)
      → (start_joints double now e).0 ≡ true
      → (start_joints double now e).1.status.state ≡ running
  unfolding start_joints start
  start_joints_runs now e h = refl

  pub config_kept :
      (e : JointEndpoint double) → (configure double e).1.config.endpoint_id ≡ e.config.endpoint_id
  unfolding configure
  config_kept e =
      if_cases (λ (r : Bool × JointEndpoint double). r.1.config.endpoint_id ≡ e.config.endpoint_id)
        (is_empty e.config.command_topic || is_empty e.config.state_topic) (λ h. refl) (λ h. refl)

  pub start_joints_keeps :
      (now : ℕ) (e : JointEndpoint double)
      → (start_joints double now e).1.config.endpoint_id ≡ e.config.endpoint_id
  unfolding start_joints start
  start_joints_keeps now e = refl

  abbrev pub make_joints :
      Real → List (JointInfo double) → ℕ → EndpointConfig Real → Option (JointEndpoint double)
  make_joints temperature joints now c =
      if text_eq c.type (codes "joint_controller")
      then some (new_endpoint double temperature joints now c)
      else none

  pub made_joints :
      (b : Bool) (new e : JointEndpoint double)
      → (if b then some new else none) ≡ some e
      → e.config.endpoint_id ≡ new.config.endpoint_id
  made_joints true new e h = ap (λ o. elim o [ some d ↦ d.config.endpoint_id | none ↦ [] ]) (sym h)
  made_joints false new e h = cc h

  -- The endpoints of a build that has the joint controllers only, at a reading of the clock, with
  -- what happens while one stops.
  abbrev pub joint_endpoints :
      Real → List (JointInfo double) → ℕ → Meanwhile double → HardwareEndpoint Real
  joint_endpoints temperature joints now meanwhile = record {
    Endpoint = JointEndpoint double;
    id = λ e. e.config.endpoint_id;
    configure = configure double;
    start = start_joints double now;
    stop = stop_joints double meanwhile;
    status = λ e. e.status;
    make = make_joints temperature joints now;
    id-configure = config_kept;
    id-start = start_joints_keeps now;
    id-make = λ c e h.
        made_joints (text_eq c.type (codes "joint_controller"))
          (new_endpoint double temperature joints now c) e h;
    start_runs = start_joints_runs now;
  }
