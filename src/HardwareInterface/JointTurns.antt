-- ===== src/HardwareInterface/JointTurns.antt =====
-- services/hardware_interface/endpoints/joint_controller_endpoint.cpp: Stop, with what the thread and
-- the subscriber of the endpoint do meanwhile.
use openember.Prelude.{ℕ, Bool, false, List, [], ◌∷◌}
use openember.Actuator.Joint.{Double, JointCommand}
use openember.Actuator.Controller.{stop, disable}
use openember.Actuator.Read.{read_state, read_woken}
use openember.HardwareInterface.Endpoint.{stopped_status}
use openember.HardwareInterface.JointEndpoint.{JointEndpoint, run_step, after_read, handle_command}

module _ (double : Double) where
  -- The thread's Step, the two sections of its ReadState, and the subscriber's HandleCommand, each
  -- taken together with what it then writes to the status: counts, times and messages. The readings
  -- of the clock are those of the operations; a read has the result of Publish and the time of
  -- publishing first.
  pub data Turn : Type 0 where
    steps : ℕ → ℕ → Turn
    reads wakes : Bool → ℕ → ℕ → ℕ → ℕ → ℕ → Turn
    handles : ℕ → JointCommand double → Turn

  unfoldable pub turn : Turn → JointEndpoint double → JointEndpoint double
  turn (steps now now_ns) e = (run_step double now now_ns e).1
  turn (reads published later period first at now) e =
      after_read double published later e (read_state double period first at now e.controller)
  turn (wakes published later period second at now) e =
      after_read double published later e (read_woken double period second at now e.controller)
  turn (handles now message) e = handle_command double now message e

  unfoldable pub turns : List Turn → JointEndpoint double → JointEndpoint double
  turns [] e = e
  turns (t ∷ ts) e = turns ts (turn t e)

  -- What the other threads do in Stop before its call of Disable, between this and the controller's
  -- Stop, and from there until the join has returned and Stop has the status.
  pub record Meanwhile : Type 0 where
    pub before_disable : List Turn
    pub before_stop : List Turn
    pub before_end : List Turn

  -- Nothing.
  abbrev pub alone : Meanwhile
  alone = record { before_disable = []; before_stop = []; before_end = [] }

  -- The controller's Disable.
  abbrev pub disable_joints : JointEndpoint double → JointEndpoint double
  disable_joints e = record e { controller = (disable double e.controller).1 }

  -- The controller's Stop.
  abbrev pub stop_controller : JointEndpoint double → JointEndpoint double
  stop_controller e = record e { controller = stop double e.controller }

  -- What follows the join.
  abbrev pub joined : JointEndpoint double → JointEndpoint double
  joined e = record e { status = stopped_status e.status }

  -- Stop.
  unfoldable pub stop_joints : Meanwhile → JointEndpoint double → JointEndpoint double
  stop_joints meanwhile e =
      let asked = turns meanwhile.before_disable (record e { running = false }) in
      let disabled = turns meanwhile.before_stop (disable_joints asked) in
      joined (turns meanwhile.before_end (stop_controller disabled))
