-- ===== src/Launch/Process.antt =====
-- system/launch_manager/process_manager.cpp: class ProcessManager, its data and
-- the helpers that find processes and send events.
use openember.Prelude.{ℕ, Bool, false, not, List, [], ◌∷◌, map, Option, none, some, if◌then◌else◌}
use openember.Prelude.Int.{ℤ, negsuc, int_eq}
use openember.Prelude.Text.{Text, text_eq}
use openember.Launch.Spec.{ProcessSpec}
use openember.Launch.World.{ProcessState, stopped, ProcessEvent, World}

pub record ManagedProcess : Type 0 where
  pub spec : ProcessSpec
  pub pid : ℤ
  pub state : ProcessState
  pub restart_count : ℕ
  pub start_time : ℕ
  pub start_time_unix_ns : ℕ
  pub stop_time_unix_ns : ℕ
  pub has_heartbeat : Bool
  pub intentional_stop : Bool
  pub last_heartbeat_time : ℕ
  pub stop_deadline : ℕ

pub record Manager : Type 0 where
  pub processes : List ManagedProcess
  pub world : World
  pub is_stopping : Bool

-- ManagedProcess{spec}, the default member initialisers.
abbrev pub managed : ProcessSpec → ManagedProcess
managed s = record {
  spec = s;
  pid = negsuc 0;
  state = stopped;
  restart_count = 0;
  start_time = 0;
  start_time_unix_ns = 0;
  stop_time_unix_ns = 0;
  has_heartbeat = false;
  intentional_stop = false;
  last_heartbeat_time = 0;
  stop_deadline = 0;
}

-- The constructor, and the callback that SetEventCallback installs.
unfoldable pub init : List ProcessSpec → Bool → Manager
init specs callback = record {
  processes = map managed specs;
  world = record { has_callback = callback; events = []; signals = []; calls = 0 };
  is_stopping = false;
}

-- MakeEvent.
unfoldable pub make_event : ManagedProcess → ProcessState → ℤ → ℕ → Text → ProcessEvent
make_event p s code stop_time text = record {
  spec = p.spec;
  pid = p.pid;
  state = s;
  exit_code = code;
  start_time_unix_ns = p.start_time_unix_ns;
  stop_time_unix_ns = stop_time;
  message = text;
}

-- EmitEvent.
unfoldable pub emit_event : ManagedProcess → ProcessState → ℤ → ℕ → Text → World → World
emit_event p s code stop_time text w = record w {
  events = if not w.has_callback then w.events else make_event p s code stop_time text ∷ w.events;
}

-- The first process that passes the test is changed in place, as through the pointer that
-- FindByName and FindByPid return.
abbrev pub behind {ℓ} :
    {A : Type ℓ}
    → ManagedProcess
    → Option (List ManagedProcess × A)
    → Option (List ManagedProcess × A)
behind p none = none
behind p (some (qs, a)) = some (p ∷ qs, a)

unfoldable pub visit {ℓ} :
    {A : Type ℓ}
    → (ManagedProcess → Bool)
    → (ManagedProcess → ManagedProcess × A)
    → List ManagedProcess
    → Option (List ManagedProcess × A)
visit test f [] = none
visit test f (p ∷ ps) =
    let rest = behind p (visit test f ps) in
    let (q, a) = f p in if test p then some (q ∷ ps, a) else rest

-- A search that is made under a test alone.
abbrev pub visit_if {ℓ} :
    {A : Type ℓ}
    → Bool
    → (ManagedProcess → Bool)
    → (ManagedProcess → ManagedProcess × A)
    → List ManagedProcess
    → Option (List ManagedProcess × A)
visit_if b test f ps = if b then visit test f ps else none

-- A loop over all processes.
unfoldable pub for_each :
    (ManagedProcess → World → ManagedProcess × World)
    → List ManagedProcess
    → World
    → List ManagedProcess × World
for_each f [] w = ([], w)
for_each f (p ∷ ps) w = let (q, w₁) = f p w in let (qs, w₂) = for_each f ps w₁ in (q ∷ qs, w₂)

abbrev pub named : Text → ManagedProcess → Bool
named n p = text_eq p.spec.name n

abbrev pub has_pid : ℤ → ManagedProcess → Bool
has_pid i p = int_eq p.pid i
