-- ===== src/Tests/Parameters.antt =====
-- Requests to the configuration service of system/config_service.
use openember.Prelude.{◌≡◌, refl, true, false, List, [], ◌∷◌, some, map, All, ◌↔◌}
use openember.Prelude.Text.{Text, codes, text_eq}
use openember.Prelude.Map.{lookup, insert, text_less}
use openember.Messages.{no_header}
use openember.ConfigService.Store.{
  Parameter, name_of, make_string_parameter, robot_id, refusal, set_parameters, new_store, put,
}
use openember.ConfigService.Handlers.{
  SetRequest, Request, gets, sets, serve_all, new_service, handle_set, handle_get,
}
use openember.ConfigService.Updates.{
  serve_all-locked, handle_get-set, view, overlay, IsAllowed, set_parameters_lem,
}

-- The mode set to `field`, and an attempt on the robot's id.
abbrev field_mode : Parameter
field_mode =
    make_string_parameter (codes "product.mode") (codes "Current product mode") (codes "field")
      false

abbrev other_robot : Parameter
other_robot =
    make_string_parameter (codes "runtime.robot_id") (codes "OpenEmber robot id") (codes "x") false

abbrev mode_request : SetRequest
mode_request = record { header = no_header; parameters = field_mode ∷ [] }

abbrev robot_request : SetRequest
robot_request = record { header = no_header; parameters = field_mode ∷ other_robot ∷ [] }

abbrev requests : List Request
requests =
    sets 1 robot_request
    ∷ sets 2 mode_request
    ∷ gets 3 (record { header = no_header; names = [] })
    ∷ []

set_parameters_lem_example :
    let r = set_parameters (field_mode ∷ []) new_service.store in
    (r.done ≡ true ↔ All (IsAllowed (view new_service.store)) (field_mode ∷ []))
    × (r.done ≡ true
        → (r.changed ≡ field_mode ∷ [])
          × ((name : Text)
              → view r.store name ≡ overlay (view new_service.store) (field_mode ∷ []) name))
    × (r.done ≡ false → (r.changed ≡ []) × (r.store ≡ new_service.store))
set_parameters_lem_example = set_parameters_lem (field_mode ∷ []) new_service.store

serve_all-locked_example :
    view (serve_all requests new_service).store (codes "runtime.robot_id") ≡ some robot_id
unfolding new_service new_store put insert lookup codes text_eq text_less
serve_all-locked_example =
    serve_all-locked (codes "runtime.robot_id") robot_id refl requests new_service refl

handle_get-set_example :
    (handle_get 5
      (record { header = no_header; names = map name_of (field_mode ∷ []) })
      (handle_set 4 mode_request new_service).1).0.parameters
    ≡ field_mode ∷ []
unfolding handle_set set_parameters refusal new_service new_store put insert lookup codes text_eq
    text_less
handle_get-set_example =
    handle_get-set 4 5 no_header mode_request new_service field_mode [] refl (tt, tt) refl

-- A list with a read-only parameter changes nothing.
refused_example : (set_parameters (field_mode ∷ other_robot ∷ []) new_service.store).done ≡ false
unfolding set_parameters refusal new_service new_store put insert lookup codes text_eq text_less
refused_example = refl
