-- ===== src/ConfigService/Handlers.antt =====
-- system/config_service/main.cpp: the handlers of the two services, and the messages they build.
use openember.Prelude.{ℕ, suc, Bool, not, ◌&&◌, List, [], ◌∷◌, some, none, if◌then◌else◌}
use openember.Prelude.Text.{Text, codes, is_empty}
use openember.Prelude.Word.{u64}
use openember.Messages.{Header, Status, fill_header, fill_status}
use openember.ConfigService.Store.{
  Parameter, Store, new_store, get_parameters, SetResult, set_parameters,
}

pub record GetRequest : Type 0 where
  pub header : Header
  pub names : List Text

pub record SetRequest : Type 0 where
  pub header : Header
  pub parameters : List Parameter

-- A response to either request.
pub record Response : Type 0 where
  pub header : Header
  pub status : Status
  pub parameters : List Parameter

pub record ParameterEvent : Type 0 where
  pub header : Header
  pub node_name : Text
  pub parameters : List Parameter

-- The variables of main that the handlers share, and the events published, the last one first.
pub record Service : Type 0 where
  pub store : Store
  pub service_sequence : ℕ
  pub event_sequence : ℕ
  pub events : List ParameterEvent

unfoldable pub new_service : Service
new_service = record { store = new_store; service_sequence = 0; event_sequence = 0; events = [] }

abbrev name : Text
name = codes "config_service"

-- BuildGetResponse.
abbrev pub build_get_response : ℕ → GetRequest → List Parameter → ℕ → Response
build_get_response now request parameters sequence = record {
  header = fill_header name now sequence (some request.header);
  status = fill_status Bool.true (codes "ok");
  parameters = parameters;
}

-- BuildSetResponse.
abbrev pub build_set_response : ℕ → SetRequest → SetResult → ℕ → Response
build_set_response now request r sequence = record {
  header = fill_header name now sequence (some request.header);
  status = fill_status r.done r.message;
  parameters = r.changed;
}

-- BuildParameterEvent.
abbrev pub build_parameter_event : ℕ → List Parameter → ℕ → ParameterEvent
build_parameter_event now parameters sequence = record {
  header = fill_header name now sequence none;
  node_name = name;
  parameters = parameters;
}

-- The handler of kGetParameterService.
unfoldable pub handle_get : ℕ → GetRequest → Service → Response × Service
handle_get now request s = (
  build_get_response now request (get_parameters s.store request.names) s.service_sequence,
  record s { service_sequence = u64 (suc s.service_sequence) },
)

-- The publication of a change.
abbrev announce : ℕ → SetResult → Service → Service
announce now r s =
    if r.done && not (is_empty r.changed)
    then record s {
      events = build_parameter_event now r.changed s.event_sequence ∷ s.events;
      event_sequence = u64 (suc s.event_sequence);
    }
    else s

-- The handler of kSetParameterService.
unfoldable pub handle_set : ℕ → SetRequest → Service → Response × Service
handle_set now request s =
    let r = set_parameters request.parameters s.store in
    let t = announce now r (record s { store = r.store }) in
    (
      build_set_response now request r s.service_sequence,
      record t { service_sequence = u64 (suc t.service_sequence) },
    )

-- A request, with the reading of the clock when it is answered.
pub data Request : Type 0 where
  gets : ℕ → GetRequest → Request
  sets : ℕ → SetRequest → Request

unfoldable pub serve : Request → Service → Service
serve (gets now request) s = (handle_get now request s).1
serve (sets now request) s = (handle_set now request s).1

unfoldable pub serve_all : List Request → Service → Service
serve_all [] s = s
serve_all (r ∷ rs) s = serve_all rs (serve r s)
