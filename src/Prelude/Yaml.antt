-- ===== src/Prelude/Yaml.antt =====
-- yaml-cpp, a parameter of the code that loads configurations.
use openember.Prelude.{ℕ, Bool, List, Option}
use openember.Prelude.Text.{Text}
use openember.Prelude.Result.{Result, bad}

-- An exception: yaml-cpp's own, or a std::runtime_error.
pub data Failure : Type 0 where
  yaml_failure runtime_failure : Text → Failure

-- What the code uses of YAML::Node and of `double`. An undefined node is none, and `child` is
-- `node[key]` of a map.
pub record Yaml : Type 1 where
  pub Node : Type 0
  pub Real : Type 0
  pub load_file : Text → Result Failure Node
  pub child : Node → Text → Option Node
  -- `node[key]` of a node that may be no map.
  pub subscript : Node → Text → Result Failure (Option Node)
  -- What an iteration over a sequence gives, and what one over a map gives.
  pub items : Node → List Node
  pub pairs : Node → List (Node × Node)
  pub is_map : Node → Bool
  pub is_scalar : Node → Bool
  pub is_sequence : Node → Bool
  pub as_string : Node → Result Failure Text
  pub as_bool : Node → Result Failure Bool
  pub as_double : Node → Result Failure Real
  pub as_uint32 : Node → Result Failure ℕ
  pub as_uint64 : Node → Result Failure ℕ
  -- What the assignment of a node to an undefined one does.
  pub assign : Option Node → Result Failure (Option Node)
  -- The double of a number, and whether a double is at most zero.
  pub literal : ℕ → Real
  pub at_most_zero : Real → Bool

abbrev pub runtime_error {ℓ} : {A : Type ℓ} → Text → Result Failure A
runtime_error text = bad (runtime_failure text)
