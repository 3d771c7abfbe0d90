-- ===== src/DeviceManager/Registry.antt =====
-- system/device_manager/main.cpp: BuildInitialDevices and class DeviceRegistry. Each call holds the
-- mutex, so that a call is one step.
use openember.Prelude.{
  ℕ, suc, Bool, true, false, not, ◌&&◌, ◌||◌, List, [], ◌∷◌, Option, none, some, ◌==◌,
  if◌then◌else◌,
}
use openember.Prelude.Text.{Text, codes, is_empty, text_eq}
use openember.Prelude.Map.{Map, lookup, insert}
use openember.Messages.{
  Header, no_header, Status, Label, Metric, HealthState, unspecified, ok, stale, fill_header,
  fill_status,
}

-- kAllDeviceInfoTopic and kAllDeviceStateTopic.
abbrev pub all_device_info_topic : Text
all_device_info_topic = codes "/devices/*/info"

abbrev pub all_device_state_topic : Text
all_device_state_topic = codes "/devices/*/state"

pub data DeviceCategory : Type 0 where
  no_category sensor actuator : DeviceCategory
  other_category : ℕ → DeviceCategory

pub data DeviceAvailability : Type 0 where
  no_availability offline online failing : DeviceAvailability

pub record DeviceInfo : Type 0 where
  pub header : Header
  pub device_id : Text
  pub name : Text
  pub category : DeviceCategory
  pub driver : Text
  pub path : Text
  pub bus : Text
  pub capabilities : List Text
  pub labels : List Label

pub record DeviceState : Type 0 where
  pub header : Header
  pub device_id : Text
  pub availability : DeviceAvailability
  pub health : HealthState
  pub message : Text
  pub metrics : List Metric
  pub properties : List Label

-- The new messages of a ManagedDevice.
abbrev pub new_info : DeviceInfo
new_info = record {
  header = no_header;
  device_id = [];
  name = [];
  category = no_category;
  driver = [];
  path = [];
  bus = [];
  capabilities = [];
  labels = [];
}

abbrev pub new_state : DeviceState
new_state = record {
  header = no_header;
  device_id = [];
  availability = no_availability;
  health = unspecified;
  message = [];
  metrics = [];
  properties = [];
}

pub record ManagedDevice : Type 0 where
  pub info : DeviceInfo
  pub state : DeviceState
  pub has_info : Bool
  pub has_state : Bool

abbrev pub new_device : ManagedDevice
new_device = record { info = new_info; state = new_state; has_info = false; has_state = false }

abbrev pub Registry : Type 0
Registry = Map ManagedDevice

-- `devices_[id]`: the device, a new one if there is none.
abbrev pub or_new : Option ManagedDevice → ManagedDevice
or_new none = new_device
or_new (some device) = device

-- The state of a device that has reported its information only.
abbrev pub silent_state : Text → DeviceState
silent_state id = record new_state {
  device_id = id;
  availability = offline;
  health = stale;
  message = codes "device state not reported yet";
}

abbrev pub with_info : DeviceInfo → ManagedDevice → ManagedDevice
with_info info device = record device {
  info = info;
  has_info = true;
  state = if device.has_state then device.state else silent_state info.device_id;
  has_state = true;
}

-- UpdateInfo.
unfoldable pub update_info : DeviceInfo → Registry → Registry
update_info info r =
    if is_empty info.device_id
    then r
    else insert info.device_id (with_info info (or_new (lookup info.device_id r))) r

abbrev pub with_state : DeviceState → ManagedDevice → ManagedDevice
with_state state device = record device { state = state; has_state = true }

-- UpdateState.
unfoldable pub update_state : DeviceState → Registry → Registry
update_state state r =
    if is_empty state.device_id
    then r
    else insert state.device_id (with_state state (or_new (lookup state.device_id r))) r

-- The loop of the constructor.
unfoldable pub add_devices : List ManagedDevice → Registry → Registry
add_devices [] r = r
add_devices (d ∷ ds) r =
    let s = if d.has_info then update_info d.info r else r in
    add_devices ds (if d.has_state then update_state d.state s else s)

-- DeviceRegistry::DeviceRegistry.
unfoldable pub new_registry : List ManagedDevice → Registry
new_registry ds = add_devices ds []

-- BuildInitialDevices, at two readings of the clock.
abbrev pub initial_devices : ℕ → ℕ → List ManagedDevice
initial_devices now later =
    record {
      info = record {
        header = fill_header (codes "device_manager") now 0 none;
        device_id = codes "runtime_demo";
        name = codes "Runtime Demo Device";
        category = sensor;
        driver = codes "openember.demo";
        path = codes "virtual://runtime_demo";
        bus = codes "virtual";
        capabilities = codes "heartbeat_source" ∷ codes "demo_sensor" ∷ [];
        labels = record { key = codes "source"; value = codes "static" } ∷ [];
      };
      state = record {
        header = fill_header (codes "device_manager") later 0 none;
        device_id = codes "runtime_demo";
        availability = online;
        health = ok;
        message = codes "runtime demo device online";
        metrics = [];
        properties = [];
      };
      has_info = true;
      has_state = true;
    }
    ∷ []

-- Size.
unfoldable pub size : Registry → ℕ
size [] = 0
size ((k, d) ∷ r) = let n = size r in if d.has_info then suc n else n

pub record DeviceQuery : Type 0 where
  pub header : Header
  pub device_id : Text
  pub category : DeviceCategory
  pub include_state : Bool

pub record DeviceQueryResponse : Type 0 where
  pub header : Header
  pub status : Status
  pub devices : List DeviceInfo
  pub states : List DeviceState

abbrev pub category_eq : DeviceCategory → DeviceCategory → Bool
category_eq no_category no_category = true
category_eq sensor sensor = true
category_eq actuator actuator = true
category_eq (other_category a) (other_category b) = a == b
category_eq a b = false

abbrev pub is_no_category : DeviceCategory → Bool
is_no_category no_category = true
is_no_category c = false

-- The tests of Query that pass over a device.
abbrev pub is_passed : DeviceQuery → ManagedDevice → Bool
is_passed q d =
    not d.has_info
    || not (is_empty q.device_id) && not (text_eq q.device_id d.info.device_id)
    || not (is_no_category q.category) && not (category_eq q.category d.info.category)

-- The loop of Query.
unfoldable pub select_infos : DeviceQuery → Registry → List DeviceInfo
select_infos q [] = []
select_infos q ((k, d) ∷ r) =
    let rest = select_infos q r in if is_passed q d then rest else d.info ∷ rest

unfoldable pub select_states : DeviceQuery → Registry → List DeviceState
select_states q [] = []
select_states q ((k, d) ∷ r) =
    let rest = select_states q r in
    if is_passed q d || not (q.include_state && d.has_state) then rest else d.state ∷ rest

-- Query.
unfoldable pub query : ℕ → DeviceQuery → ℕ → Registry → DeviceQueryResponse
query now q sequence r = record {
  header = fill_header (codes "device_manager") now sequence (some q.header);
  status = fill_status true (codes "ok");
  devices = select_infos q r;
  states = select_states q r;
}

-- What the subscriptions of main bring.
pub data Report : Type 0 where
  informs : DeviceInfo → Report
  tells : DeviceState → Report

unfoldable pub receive : Report → Registry → Registry
receive (informs info) r = update_info info r
receive (tells state) r = update_state state r

unfoldable pub receive_all : List Report → Registry → Registry
receive_all [] r = r
receive_all (m ∷ ms) r = receive_all ms (receive m r)
