-- ===== src/ConfigService/Store.antt =====
-- system/config_service/main.cpp: MakeStringParameter and class ParameterStore. Each call holds the
-- mutex, so that a call is one step.
use openember.Prelude.{
  ℕ, Bool, true, false, List, [], ◌∷◌, ◌++◌, Option, none, some, if◌then◌else◌, length,
}
use openember.Prelude.Text.{Text, codes, is_empty}
use openember.Prelude.Map.{Map, lookup, insert, values}

-- The type of a parameter; the code names strings only.
pub data ParameterType : Type 0 where
  string_type : ParameterType
  other_type : ℕ → ParameterType

-- A value; the code builds strings, and copies all others.
pub data ParameterValue : Type 0 where
  string_value : Text → ParameterValue
  other_value : ℕ → ParameterValue

pub record Definition : Type 0 where
  pub name : Text
  pub kind : ParameterType
  pub description : Text
  pub read_only : Bool
  pub default_value : ParameterValue

pub record Parameter : Type 0 where
  pub definition : Definition
  pub value : ParameterValue

abbrev pub name_of : Parameter → Text
name_of p = p.definition.name

-- MakeStringParameter.
abbrev pub make_string_parameter : Text → Text → Text → Bool → Parameter
make_string_parameter name description value read_only = record {
  definition = record {
    name = name;
    kind = string_type;
    description = description;
    read_only = read_only;
    default_value = string_value value;
  };
  value = string_value value;
}

abbrev pub Store : Type 0
Store = Map Parameter

-- Put.
unfoldable pub put : Parameter → Store → Store
put p store = insert (name_of p) p store

abbrev pub product_mode : Parameter
product_mode =
    make_string_parameter (codes "product.mode") (codes "Current product mode") (codes "demo") false

abbrev pub robot_id : Parameter
robot_id =
    make_string_parameter (codes "runtime.robot_id") (codes "OpenEmber robot id")
      (codes "openember") true

-- ParameterStore::ParameterStore.
unfoldable pub new_store : Store
new_store = put robot_id (put product_mode [])

abbrev cons_found : Option Parameter → List Parameter → List Parameter
cons_found none ps = ps
cons_found (some p) ps = p ∷ ps

-- The loop of Get over the names.
unfoldable pub get_named : Store → List Text → List Parameter
get_named store [] = []
get_named store (name ∷ names) = cons_found (lookup name store) (get_named store names)

-- Get.
unfoldable pub get_parameters : Store → List Text → List Parameter
get_parameters store names = if is_empty names then values store else get_named store names

abbrev pub is_read_only : Option Parameter → Bool
is_read_only none = false
is_read_only (some p) = p.definition.read_only

-- The first loop of Set: the message of the first parameter that it refuses.
unfoldable pub refusal : Store → List Parameter → Option Text
refusal store [] = none
refusal store (p ∷ ps) =
    let rest = refusal store ps in
    if is_empty (name_of p)
    then some (codes "parameter name is required")
    else if is_read_only (lookup (name_of p) store)
    then some (codes "parameter is read-only: " ++ name_of p)
    else rest

-- The second loop of Set.
unfoldable pub put_all : List Parameter → Store → Store
put_all [] store = store
put_all (p ∷ ps) store = put_all ps (put p store)

-- What Set gives back, with the store after it. `changed` holds what each round has just put.
pub record SetResult : Type 0 where
  pub done : Bool
  pub changed : List Parameter
  pub message : Text
  pub store : Store

abbrev pub set_unless : List Parameter → Store → Option Text → SetResult
set_unless ps store (some message) = record {
  done = false;
  changed = [];
  message = message;
  store = store;
}
set_unless ps store none = record {
  done = true;
  changed = ps;
  message = codes "ok";
  store = put_all ps store;
}

-- Set.
unfoldable pub set_parameters : List Parameter → Store → SetResult
set_parameters ps store = set_unless ps store (refusal store ps)

-- Size.
abbrev pub size : Store → ℕ
size store = length store
