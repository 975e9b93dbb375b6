-- ===== src/Domain/Values.antt =====
-- Values that the packages of internal/domain share. A `float64` is the number whose binary digits are its bits; what the
-- processor computes on such bits is a parameter.
use akoflow_workflow_engine.Prelude.{ℕ, String, Bool, false, Option, none, some}
use akoflow_workflow_engine.Prelude.Int.{ℤ}
use akoflow_workflow_engine.Prelude.Maps.{StringMap, lookup}

abbrev pub Float : Type 0
Float = ℕ

-- The bits of 0.0 are all 0.
abbrev pub zero_float : Float
zero_float = 0

pub record FloatOps : Type 0 where
  pub less : Float → Float → Bool
  pub equal : Float → Float → Bool
  pub add : Float → Float → Float
  pub sub : Float → Float → Float
  pub of_int : ℤ → Float
  pub of_float32 : ℕ → Float

-- An `any`, by its dynamic type.
pub data Value : Type 0 where
  text : String → Value
  flag : Bool → Value
  float : Float → Value
  float32 : ℕ → Value
  int64 : ℤ → Value
  int : ℤ → Value
  other_value : Value

-- A `map[string]any`; a nil map reads like an empty one.
abbrev pub Metadata : Type 0
Metadata = StringMap Value

abbrev pub as_text : Option Value → String
as_text (some (text s)) = s
as_text none = ""
as_text (some _) = ""

abbrev pub as_flag : Option Value → Bool
as_flag (some (flag b)) = b
as_flag none = false
as_flag (some _) = false

-- text, _ := metadata[key].(string)
unfoldable pub text_of : Metadata → String → String
unfolding lookup
text_of metadata key = as_text (lookup key metadata)

-- flag, _ := metadata[key].(bool)
unfoldable pub flag_of : Metadata → String → Bool
unfolding lookup
flag_of metadata key = as_flag (lookup key metadata)
