-- ===== src/Actuator/Read.antt =====
-- components/actuator/src/mock_joint_controller.cpp: ReadState. Its wait gives the mutex back, so
-- that it is two sections, with other calls between them.
use openember.Prelude.{ℕ, suc, ◌+◌, not, List, ltb, if◌then◌else◌}
use openember.Prelude.Text.{Text, codes}
use openember.Prelude.Word.{u64}
use openember.Actuator.Joint.{Double, Availability, not_running, timeout, Error, JointStateItem}
use openember.Actuator.Controller.{Controller, availability}

module _ (double : Double) where
  pub record JointState : Type 0 where
    pub controller_id : Text
    pub sample_time_monotonic_ns : ℕ
    pub sequence : ℕ
    pub availability : Availability
    pub joints : List (JointStateItem double)
    pub message : Text

  -- How a section ends: with a result, or with the wait.
  pub data ReadResult : Type 0 where
    has_read : JointState → ReadResult
    fails : Error → ReadResult
    waits : ReadResult

  -- The sampling, at the readings of the clock for the sample and for the next one.
  abbrev pub sample : ℕ → ℕ → ℕ → Controller double → ReadResult × Controller double
  sample period at now c = (
    has_read (record {
      controller_id = c.options.controller_id;
      sample_time_monotonic_ns = at;
      sequence = c.state_sequence;
      availability = availability double c;
      joints = c.joint_states;
      message = c.message;
    }),
    record c { state_sequence = u64 (suc c.state_sequence); next_state = now + period },
  )

  -- ReadState up to its wait, at a reading of the clock.
  unfoldable pub read_state : ℕ → ℕ → ℕ → ℕ → Controller double → ReadResult × Controller double
  read_state period first at now c =
      if not c.running
      then (
        fails
            (record { code = not_running; message = codes "mock joint controller is not running" }),
        c,
      )
      else if ltb first c.next_state
      then (waits, c)
      else sample period at now c

  -- ReadState after its wait.
  unfoldable pub read_woken : ℕ → ℕ → ℕ → ℕ → Controller double → ReadResult × Controller double
  read_woken period later at now c =
      if not c.running
      then (
        fails (record { code = not_running; message = codes "mock joint controller stopped" }),
        c,
      )
      else if ltb later c.next_state
      then (
        fails (record { code = timeout; message = codes "mock joint controller read timeout" }),
        c,
      )
      else sample period at now c
