-- ===== src/Requests/Values.antt =====
-- The texts of internal/api/requests/workflow.go: identifiers, and limits on processors and memory. Text is a list of
-- runes where the code walks it; what packages strings, strconv and unicode compute is a parameter.
use akoflow_workflow_engine.Prelude.{
  ℕ, String, Bool, ◌||◌, List, [], ◌∷◌, ◌++◌, map, Result, ok, ◌>>=◌, if◌then◌else◌, is_empty,
  nat_eq,
}
use akoflow_workflow_engine.Prelude.Int.{ℤ, pos}
use akoflow_workflow_engine.Domain.Values.{Float}

pub record TextOps : Type 0 where
  pub runes : String → List ℕ
  pub of_runes : List ℕ → String
  pub lower : String → String
  pub trim_space : String → String
  pub is_letter : ℕ → Bool
  pub is_digit : ℕ → Bool
  pub has_suffix : String → String → Bool
  pub trim_suffix : String → String → String
  pub parse_float : String → Result String Float
  pub parse_int : String → Result String ℤ
  pub format_float : Float → String
  pub format_int : ℤ → String
  pub divide : Float → Float → Float
  pub multiply : Float → Float → Float
  -- int64(x)
  pub to_int : Float → ℤ

abbrev pub dash : ℕ
dash = 45

unfoldable pub drop_dashes : List ℕ → List ℕ
drop_dashes [] = []
drop_dashes (r ∷ rs) = let rest = drop_dashes rs in if nat_eq r dash then rest else r ∷ rs

unfoldable pub reverse : List ℕ → List ℕ
reverse [] = []
reverse (r ∷ rs) = reverse rs ++ r ∷ []

-- strings.Trim(s, "-")
unfoldable pub trim_dashes : List ℕ → List ℕ
unfolding drop_dashes reverse
trim_dashes rs = reverse (drop_dashes (reverse (drop_dashes rs)))

-- The bits of the floats 0.1, 1000, 2 ^ 10, 2 ^ 20 and 2 ^ 30.
abbrev pub tenth : Float
tenth = 4591870180066957722

abbrev pub thousand : Float
thousand = 4652007308841189376

abbrev pub kibi : Float
kibi = 4652218415073722368

abbrev pub mebi : Float
mebi = 4697254411347427328

abbrev pub gibi : Float
gibi = 4742290407621132288

module _ (ops : TextOps) where
  abbrev pub dashed : ℕ → ℕ
  dashed r = if ops.is_letter r || ops.is_digit r || nat_eq r dash then r else dash

  unfoldable pub identifier : String → String
  unfolding trim_dashes
  identifier value =
      ops.of_runes (trim_dashes (map dashed (ops.runes (ops.lower (ops.trim_space value)))))

  abbrev pub milli : Float → Result String Float
  milli x = ok (ops.divide x thousand)

  unfoldable pub cpu_value : String → Result String Float
  cpu_value value =
      if is_empty value
      then ok tenth
      else if ops.has_suffix value "m"
      then ops.parse_float (ops.trim_suffix value "m") >>= milli
      else ops.parse_float value

  abbrev pub scaled : Float → Float → Result String ℤ
  scaled multiplier x = ok (ops.to_int (ops.multiply x multiplier))

  abbrev pub with_suffix : String → String → Float → Result String ℤ
  with_suffix value suffix multiplier =
      ops.parse_float (ops.trim_suffix value suffix) >>= scaled multiplier

  -- No text has two of the suffixes, so the order in which `range` meets them is the same to the result.
  unfoldable pub byte_value : String → Result String ℤ
  byte_value value =
      if is_empty value
      then ok (pos 16777216)
      else if ops.has_suffix value "Ki"
      then with_suffix value "Ki" kibi
      else if ops.has_suffix value "Mi"
      then with_suffix value "Mi" mebi
      else if ops.has_suffix value "Gi"
      then with_suffix value "Gi" gibi
      else ops.parse_int value
