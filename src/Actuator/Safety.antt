-- ===== src/Actuator/Safety.antt =====
-- components/actuator/src/mock_joint_controller.cpp: when the joints may be driven.
use openember.Prelude.{
  ltb, ℕ, ◌≡◌, ◌≢◌, refl, ap, Bool, true, false, not, ◌&&◌, ◌||◌, List, [], ◌∷◌, if_cases, arith,
  if◌then◌else◌,
}
use openember.Prelude.Text.{Text, codes, text_eq, is_empty}
use openember.Actuator.Joint.{Double, degraded, Outcome, success, failure, JointInfo, JointCommand}
use openember.Actuator.Controller.{
  Options, Controller, new_controller, apply_safe_output, faults_cleared, start, stop, enable,
  disable, stop_now, clear_fault, inject_fault, availability,
}
use openember.Actuator.Command.{
  store_command, set_joints, set_enabled, set_command, validate_command,
}
use openember.Actuator.Read.{ReadResult, read_state, read_woken}
use openember.Actuator.Step.{
  is_timed_out, step_running, step, Call, starts, stops, enables, disables, stops_now, clears_fault,
  commands, steps, injects, reads, wakes, apply, run,
}

module _ (double : Double) where
  open double use {zero_real}

  -- The joints are driven only while the controller runs with no fault and no emergency stop.
  abbrev pub IsSafe : Controller double → Type 0
  IsSafe c =
      c.enabled ≡ true
      → (c.running ≡ true)
        × (c.fault_latched ≡ false)
        × (c.emergency_stopped ≡ false)
        × (c.safe_output_active ≡ false)

  apply_safe_output-IsSafe :
      (text : Text) (c : Controller double) → IsSafe (apply_safe_output double text c)
  unfolding apply_safe_output
  apply_safe_output-IsSafe text c h = cc h

  store_command-IsSafe :
      (now : ℕ) (command : JointCommand double) (c : Controller double) (o : Outcome)
      → IsSafe c
      → IsSafe (store_command double now command c o).1
  store_command-IsSafe now command c success h = λ k. let (a, b, d, e) = h k in (a, b, d, refl)
  store_command-IsSafe now command c (failure e) h = h

  -- The controller of a result is safe.
  abbrev LeavesSafeRead : ReadResult double × Controller double → Type 0
  LeavesSafeRead r = IsSafe r.1

  abbrev LeavesSafe : Outcome × Controller double → Type 0
  LeavesSafe r = IsSafe r.1

  set_joints-IsSafe :
      (now : ℕ) (command : JointCommand double) (c : Controller double)
      → IsSafe c
      → IsSafe (set_joints double now command c).1
  unfolding set_joints
  set_joints-IsSafe now command c h =
      if_cases LeavesSafe (is_empty command.joints) (λ e. h)
        (λ e.
          if_cases LeavesSafe (not c.enabled) (λ e. h)
            (λ e.
              if_cases LeavesSafe (c.fault_latched || c.emergency_stopped) (λ e. h)
                (λ e.
                  store_command-IsSafe now command c (validate_command double c.joints command) h)))

  set_enabled-IsSafe :
      (now : ℕ) (command : JointCommand double) (c : Controller double)
      → c.running ≡ true
      → IsSafe c
      → IsSafe (set_enabled double now command c).1
  unfolding set_enabled
  set_enabled-IsSafe now command c r h =
      if_cases LeavesSafe command.disable
        (λ e. apply_safe_output-IsSafe (codes "mock joint controller disabled by command") c)
        (λ e.
          if_cases LeavesSafe command.enable
            (λ e.
              if_cases LeavesSafe (c.fault_latched || c.emergency_stopped) (λ e. h)
                (λ e.
                  set_joints-IsSafe now command
                    (record c { enabled = true; safe_output_active = false })
                    (λ k. (r, ground (arith, e), ground (arith, e), refl))))
            (λ e. set_joints-IsSafe now command c h))

  set_command-IsSafe :
      (now : ℕ) (command : JointCommand double) (c : Controller double)
      → IsSafe c
      → IsSafe (set_command double now command c).1
  unfolding set_command
  set_command-IsSafe now command c h =
      if_cases LeavesSafe (not c.running) (λ e. h)
        (λ e.
          let r : c.running ≡ true = ground (arith, e) in
          if_cases LeavesSafe
            (not (is_empty command.controller_id)
              && not (text_eq command.controller_id c.options.controller_id))
            (λ e. h)
            (λ e.
              if_cases LeavesSafe command.stop
                (λ e.
                  apply_safe_output-IsSafe (codes "mock joint controller emergency stopped")
                    (record c { emergency_stopped = true }))
                (λ e.
                  set_enabled-IsSafe now command
                    (if command.clear_fault then faults_cleared double c else c)
                    (cleared_runs command.clear_fault r) (cleared command.clear_fault))))
    where
      cleared_runs :
          (b : Bool) → c.running ≡ true → (if b then faults_cleared double c else c).running ≡ true
      cleared_runs true r = r
      cleared_runs false r = r

      cleared : (b : Bool) → IsSafe (if b then faults_cleared double c else c)
      cleared true = λ k. let (a, b, d, e) = h k in (a, refl, refl, e)
      cleared false = h

  step_running-IsSafe :
      (dt : double.Real) (now_ns : ℕ) (c : Controller double)
      → IsSafe c
      → IsSafe (step_running double dt now_ns c)
  unfolding step_running
  step_running-IsSafe dt now_ns c h =
      if_cases IsSafe (not c.enabled)
        (λ e.
          apply_safe_output-IsSafe
            (if is_empty c.message then codes "mock joint controller disabled" else c.message) c)
        (λ e.
          if_cases IsSafe (is_timed_out double now_ns c)
            (λ e. unfold apply_safe_output in (λ k. cc k))
            (λ e.
              if_cases IsSafe (not c.has_command) (λ e. h)
                (λ e k. let (a, b, d, e) = h k in (a, b, d, refl))))

  not_flip : (b : Bool) → b ≡ true → not b ≡ false
  not_flip b h = ap not h

  apply-IsSafe :
      (call : Call double) (c : Controller double) → IsSafe c → IsSafe (apply double call c)
  unfolding apply start stop enable disable stop_now clear_fault inject_fault step apply_safe_output
      read_state read_woken
  apply-IsSafe (starts now) c h =
      λ k. (refl, refl, refl, not_flip (not c.options.disabled_on_start) k)
  apply-IsSafe stops c h = λ k. cc k
  apply-IsSafe enables c h =
      if_cases LeavesSafe (not c.running) (λ e. h)
        (λ e.
          if_cases LeavesSafe c.fault_latched (λ e. h)
            (λ f.
              if_cases LeavesSafe c.emergency_stopped (λ e. h)
                (λ g k. (ground (arith, e), f, g, refl))))
  apply-IsSafe disables c h = if_cases LeavesSafe (not c.running) (λ e. h) (λ e k. cc k)
  apply-IsSafe stops_now c h = if_cases LeavesSafe (not c.running) (λ e. h) (λ e k. cc k)
  apply-IsSafe clears_fault c h = if_cases LeavesSafe (not c.running) (λ e. h) (λ e k. cc k)
  apply-IsSafe (commands now command) c h = set_command-IsSafe now command c h
  apply-IsSafe (steps now now_ns) c h =
      if_cases LeavesSafe (not c.running) (λ e. h)
        (λ e. step_running-IsSafe _ now_ns (record c { last_step = now }) h)
  apply-IsSafe (injects text code) c h = λ k. cc k
  apply-IsSafe (reads period first at now) c h =
      if_cases LeavesSafeRead (not c.running) (λ e. h)
        (λ e. if_cases LeavesSafeRead (ltb first c.next_state) (λ f. h) (λ f. h))
  apply-IsSafe (wakes period later at now) c h =
      if_cases LeavesSafeRead (not c.running) (λ e. h)
        (λ e. if_cases LeavesSafeRead (ltb later c.next_state) (λ f. h) (λ f. h))

  run-IsSafe :
      (calls : List (Call double)) (c : Controller double) → IsSafe c → IsSafe (run double calls c)
  unfolding run
  run-IsSafe [] c h = h
  run-IsSafe (call ∷ calls) c h = run-IsSafe calls (apply double call c) (apply-IsSafe call c h)

  -- Whatever calls a controller gets in its life, its output is enabled only while it runs with no
  -- fault latched, no emergency stop and no safe output, so that it never reports itself degraded.
  pub run-new_controller-IsSafe :
      (options : Options double) (joints : List (JointInfo double)) (now : ℕ)
      (calls : List (Call double))
      → let c = run double calls (new_controller double options joints now) in
        IsSafe c × (availability double c ≢ degraded)
  unfolding availability new_controller
  run-new_controller-IsSafe options joints now calls =
      let c = run double calls (new_controller double options joints now) in
      let safe = run-IsSafe calls (new_controller double options joints now) (λ k. cc k) in
      (safe, λ e. ground (arith, e, safe))
