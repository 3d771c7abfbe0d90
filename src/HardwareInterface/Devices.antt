-- ===== src/HardwareInterface/Devices.antt =====
-- services/hardware_interface/src/hardware_interface_app.cpp with system/device_manager/main.cpp:
-- what the device manager answers about the service's endpoints.
use openember.Prelude.{ℕ, ◌+◌, ◌≡◌, true, List, Option, none, some}
use openember.Prelude.Text.{Text, text_eq}
use openember.DeviceManager.Registry.{Report}
use openember.HardwareInterface.Endpoint.{EndpointConfig, HardwareEndpoint}
use openember.HardwareInterface.App.{App}
use openember.HardwareInterface.Delivery.{Matching, device_reports}
use openember.Transport.KeyBuilder.{KeyBuilder}
use openember.HardwareInterface.Publish.{build_device_info, build_device_state}
use openember.HardwareInterface.Spin.{Message}
use openember.HardwareInterface.Latest.{Latest}

module _ {Real : Type 0} (endpoint : HardwareEndpoint Real) (matching : Matching)
    (b : KeyBuilder) where
  open endpoint use {Endpoint, id, status}

  abbrev reports : List Message → List Report
  reports ms = device_reports matching b ms

  -- A configuration that was found has the id that was looked for.
  abbrev HasId : Text → Option (EndpointConfig Real) → Type 0
  HasId k none = Unit
  HasId k (some c) = text_eq c.endpoint_id k ≡ true

  module _ (clock : ℕ → ℕ) (app : App endpoint) (sequence : ℕ) where
    -- What is the latest of an endpoint after the loop: its information and state, at two readings
    -- of the clock.
    abbrev Published : Endpoint → EndpointConfig Real → Latest → Type 0
    Published e c l =
        (i : ℕ) × (l ≡ (
          some (build_device_info app.options (clock i) c (status e) sequence),
          some (build_device_state app.options (clock (i + 1)) c (status e) sequence),
        ))
