-- ===== src/Actuator/Rest.antt =====
-- components/actuator/src/mock_joint_controller.cpp: when the joints are at rest.
use openember.Prelude.{
  ltb, ℕ, ◌≡◌, refl, Bool, true, false, not, ◌&&◌, ◌||◌, Bool-cases, inl, inr, List, [], ◌∷◌, map,
  if_cases, arith, if◌then◌else◌, All,
}
use openember.Prelude.Text.{Text, codes, text_eq, is_empty}
use openember.Actuator.Joint.{
  Double, disabled, Outcome, success, failure, JointInfo, JointCommand, JointStateItem,
}
use openember.Actuator.Controller.{
  Options, Controller, new_controller, at_rest, apply_safe_output, faults_cleared, without_fault,
  with_fault, start, stop, enable, disable, stop_now, clear_fault, inject_fault, first_state,
}
use openember.Actuator.Command.{
  store_command, set_joints, set_enabled, set_command, validate_command,
}
use openember.Actuator.Read.{ReadResult, read_state, read_woken}
use openember.Actuator.Step.{
  is_timed_out, step_running, step, Call, starts, stops, enables, disables, stops_now, clears_fault,
  commands, steps, injects, reads, wakes, apply, run,
}

module _ (double : Double) where
  open double use {zero_real}

  abbrev pub IsAtRest : JointStateItem double → Type 0
  IsAtRest s = (s.mode ≡ disabled) × (s.velocity_radps ≡ zero_real) × (s.effort_nm ≡ zero_real)

  -- With its output off, every joint is at rest.
  abbrev pub RestsOff : Controller double → Type 0
  RestsOff c = c.enabled ≡ false → All IsAtRest c.joint_states

  pub map-at_rest :
      (states : List (JointStateItem double)) → All IsAtRest (map (at_rest double) states)
  map-at_rest [] = tt
  map-at_rest (s ∷ states) = ((refl, refl, refl), map-at_rest states)

  map-without_fault :
      (states : List (JointStateItem double))
      → All IsAtRest states
      → All IsAtRest (map (without_fault double) states)
  map-without_fault [] h = tt
  map-without_fault (s ∷ states) h = (h.0, map-without_fault states h.1)

  map-first_state :
      (options : Options double) (joints : List (JointInfo double))
      → All IsAtRest (map (first_state double options) joints)
  map-first_state options [] = tt
  map-first_state options (joint ∷ joints) = ((refl, refl, refl), map-first_state options joints)

  apply_safe_output-RestsOff :
      (text : Text) (c : Controller double) → RestsOff (apply_safe_output double text c)
  unfolding apply_safe_output
  apply_safe_output-RestsOff text c h = map-at_rest c.joint_states

  store_command-RestsOff :
      (now : ℕ) (command : JointCommand double) (c : Controller double) (o : Outcome)
      → RestsOff c
      → RestsOff (store_command double now command c o).1
  store_command-RestsOff now command c success h = h
  store_command-RestsOff now command c (failure e) h = h

  -- The controller of a result is at rest if its output is off.
  abbrev LeavesRestRead : ReadResult double × Controller double → Type 0
  LeavesRestRead r = RestsOff r.1

  abbrev LeavesRest : Outcome × Controller double → Type 0
  LeavesRest r = RestsOff r.1

  set_joints-RestsOff :
      (now : ℕ) (command : JointCommand double) (c : Controller double)
      → RestsOff c
      → RestsOff (set_joints double now command c).1
  unfolding set_joints
  set_joints-RestsOff now command c h =
      if_cases LeavesRest (is_empty command.joints) (λ e. h)
        (λ e.
          if_cases LeavesRest (not c.enabled) (λ e. h)
            (λ e.
              if_cases LeavesRest (c.fault_latched || c.emergency_stopped) (λ e. h)
                (λ e.
                  store_command-RestsOff now command c (validate_command double c.joints command)
                    h)))

  set_enabled-RestsOff :
      (now : ℕ) (command : JointCommand double) (c : Controller double)
      → RestsOff c
      → RestsOff (set_enabled double now command c).1
  unfolding set_enabled
  set_enabled-RestsOff now command c h =
      if_cases LeavesRest command.disable
        (λ e. apply_safe_output-RestsOff (codes "mock joint controller disabled by command") c)
        (λ e.
          if_cases LeavesRest command.enable
            (λ e.
              if_cases LeavesRest (c.fault_latched || c.emergency_stopped) (λ e. h)
                (λ e.
                  set_joints-RestsOff now command
                    (record c { enabled = true; safe_output_active = false }) (λ k. cc k)))
            (λ e. set_joints-RestsOff now command c h))

  cleared-RestsOff :
      (b : Bool) (c : Controller double)
      → RestsOff c
      → RestsOff (if b then faults_cleared double c else c)
  cleared-RestsOff true c h = λ k. map-without_fault c.joint_states (h k)
  cleared-RestsOff false c h = h

  set_command-RestsOff :
      (now : ℕ) (command : JointCommand double) (c : Controller double)
      → RestsOff c
      → RestsOff (set_command double now command c).1
  unfolding set_command
  set_command-RestsOff now command c h =
      if_cases LeavesRest (not c.running) (λ e. h)
        (λ e.
          if_cases LeavesRest
            (not (is_empty command.controller_id)
              && not (text_eq command.controller_id c.options.controller_id))
            (λ e. h)
            (λ e.
              if_cases LeavesRest command.stop
                (λ e.
                  apply_safe_output-RestsOff (codes "mock joint controller emergency stopped")
                    (record c { emergency_stopped = true }))
                (λ e.
                  set_enabled-RestsOff now command
                    (if command.clear_fault then faults_cleared double c else c)
                    (cleared-RestsOff command.clear_fault c h))))

  step_running-RestsOff :
      (dt : double.Real) (now_ns : ℕ) (c : Controller double)
      → RestsOff c
      → RestsOff (step_running double dt now_ns c)
  unfolding step_running apply_safe_output
  step_running-RestsOff dt now_ns c h =
      if_cases RestsOff (not c.enabled) (λ e k. map-at_rest c.joint_states)
        (λ e.
          if_cases RestsOff (is_timed_out double now_ns c) (λ e k. map-at_rest c.joint_states)
            (λ f.
              if_cases RestsOff (not c.has_command) (λ e. h)
                (λ g k. absurd (ground (arith, e, k)))))

  -- A call that does not start a controller anew whose output is on, unless to leave it on.
  abbrev pub KeepsOn : Call double → Controller double → Type 0
  KeepsOn (starts now) c = c.enabled ≡ true → c.options.disabled_on_start ≡ false
  KeepsOn call c = Unit

  unfoldable pub AllKeepOn : List (Call double) → Controller double → Type 0
  AllKeepOn [] c = Unit
  AllKeepOn (call ∷ calls) c = KeepsOn call c × AllKeepOn calls (apply double call c)

  apply-RestsOff :
      (call : Call double) (c : Controller double)
      → KeepsOn call c
      → RestsOff c
      → RestsOff (apply double call c)
  unfolding apply start stop enable disable stop_now clear_fault inject_fault step apply_safe_output
      read_state read_woken
  apply-RestsOff (starts now) c n h = elim (Bool-cases c.enabled) [
    | inl e ↦ λ k. absurd (ground (arith, n e, k))
    | inr e ↦ λ k. h e
  ]
  apply-RestsOff stops c n h = λ k. map-at_rest c.joint_states
  apply-RestsOff enables c n h =
      if_cases LeavesRest (not c.running) (λ e. h)
        (λ e.
          if_cases LeavesRest c.fault_latched (λ e. h)
            (λ f. if_cases LeavesRest c.emergency_stopped (λ e. h) (λ g k. cc k)))
  apply-RestsOff disables c n h =
      if_cases LeavesRest (not c.running) (λ e. h) (λ e k. map-at_rest c.joint_states)
  apply-RestsOff stops_now c n h =
      if_cases LeavesRest (not c.running) (λ e. h) (λ e k. map-at_rest c.joint_states)
  apply-RestsOff clears_fault c n h =
      if_cases LeavesRest (not c.running) (λ e. h)
        (λ e k. map-at_rest (map (without_fault double) c.joint_states))
  apply-RestsOff (commands now command) c n h = set_command-RestsOff now command c h
  apply-RestsOff (steps now now_ns) c n h =
      if_cases LeavesRest (not c.running) (λ e. h)
        (λ e. step_running-RestsOff _ now_ns (record c { last_step = now }) h)
  apply-RestsOff (injects text code) c n h =
      λ k. map-at_rest (map (with_fault double text code) c.joint_states)
  apply-RestsOff (reads period first at now) c n h =
      if_cases LeavesRestRead (not c.running) (λ e. h)
        (λ e. if_cases LeavesRestRead (ltb first c.next_state) (λ f. h) (λ f. h))
  apply-RestsOff (wakes period later at now) c n h =
      if_cases LeavesRestRead (not c.running) (λ e. h)
        (λ e. if_cases LeavesRestRead (ltb later c.next_state) (λ f. h) (λ f. h))

  run-RestsOff :
      (calls : List (Call double)) (c : Controller double)
      → AllKeepOn calls c
      → RestsOff c
      → RestsOff (run double calls c)
  unfolding run AllKeepOn
  run-RestsOff [] c n h = h
  run-RestsOff (call ∷ calls) c n h =
      run-RestsOff calls (apply double call c) n.1 (apply-RestsOff call c n.0 h)

  -- Whatever calls a controller gets in its life, all its joints are at rest whenever its output is
  -- off: disabled, with no velocity and no effort. The exception is a Start of a controller whose
  -- output is on, if its options disable it on a start; the calls make no such Start.
  pub run-new_controller-RestsOff :
      (options : Options double) (joints : List (JointInfo double)) (now : ℕ)
      (calls : List (Call double))
      → AllKeepOn calls (new_controller double options joints now)
      → RestsOff (run double calls (new_controller double options joints now))
  unfolding new_controller
  run-new_controller-RestsOff options joints now calls n =
      run-RestsOff calls (new_controller double options joints now) n
        (λ k. map-first_state options joints)
