-- ===== src/Launch/World.antt =====
-- What the process manager sees and does outside itself: the operating system, as the results of
-- the calls in the order in which they are made, and the events and signals that it sends.
use openember.Prelude.{ℕ, suc, Bool, List, ◌∷◌, ◌==◌, false}
use openember.Prelude.Int.{ℤ, pos, negsuc}
use openember.Prelude.Text.{Text, codes, to_string}
use openember.Prelude.{◌++◌}
use openember.Launch.Spec.{ProcessSpec}

-- fork() in the parent: the child's pid, which is positive (`child n` is the pid n + 1), or errno.
pub data Fork : Type 0 where
  child : ℕ → Fork
  fork_failed : ℕ → Fork

-- The n-th call of the system gives these; times are in nanoseconds (unix) and milliseconds.
pub record Os : Type 0 where
  pub fork : ℕ → Fork
  pub unix_time_ns : ℕ → ℕ
  pub steady_now : ℕ → ℕ
  pub strerror : ℕ → Text

-- A wait status, as WIFEXITED and WIFSIGNALED read it.
pub data WaitStatus : Type 0 where
  exited : ℕ → WaitStatus
  signaled : ℕ → WaitStatus
  other_status : ℕ → WaitStatus

pub data Signal : Type 0 where
  sigterm sigkill : Signal

pub data ProcessState : Type 0 where
  starting running stopping stopped has_exited failed : ProcessState

pub record ProcessEvent : Type 0 where
  pub spec : ProcessSpec
  pub pid : ℤ
  pub state : ProcessState
  pub exit_code : ℤ
  pub start_time_unix_ns : ℕ
  pub stop_time_unix_ns : ℕ
  pub message : Text

-- Events and signals stand newest first; `calls` counts the calls of the system made so far.
pub record World : Type 0 where
  pub has_callback : Bool
  pub events : List ProcessEvent
  pub signals : List (ℤ × Signal)
  pub calls : ℕ

abbrev pub called : World → World
called w = record w { calls = suc w.calls }

abbrev pub send : ℤ → Signal → World → World
send pid s w = record w { signals = (pid, s) ∷ w.signals }

-- ExitedSuccessfully.
unfoldable pub exited_successfully : WaitStatus → Bool
exited_successfully (exited code) = code == 0
exited_successfully (signaled s) = false
exited_successfully (other_status n) = false

-- ExitCodeFromStatus.
unfoldable pub exit_code_from_status : WaitStatus → ℤ
exit_code_from_status (exited code) = pos code
exit_code_from_status (signaled (suc s)) = negsuc s
exit_code_from_status (signaled ℕ.zero) = pos 0
exit_code_from_status (other_status n) = pos n

-- StatusText.
pub status_text : WaitStatus → Text
status_text (exited code) = codes "exit_code=" ++ to_string (pos code)
status_text (signaled s) = codes "signal=" ++ to_string (pos s)
status_text (other_status n) = codes "status=" ++ to_string (pos n)
