-- ===== src/Controller/Logs.antt =====
-- The logs of internal/application/execution/controller.go. What package strings does is a parameter.
use Prim.Native.String.append
use Prim.Native.String.{◌++◌ as text_append}
use akoflow_workflow_engine.Prelude.{
  String, Bool, true, false, ◌||◌, List, [], ◌∷◌, if◌then◌else◌, is_empty, ◌==◌, ◌≡◌, refl, arith,
  Bool-cases, inl, inr, subst,
}

pub record TextOps : Type 0 where
  pub upper : String → String
  pub contains : String → String → Bool
  pub has_prefix : String → String → Bool
  -- strings.TrimRight(s, "\n"), strings.Split(s, "\n") and strings.Join(lines, "\n")
  pub trim_newlines : String → String
  pub split_lines : String → List String
  pub join_lines : List String → String

-- strings.Contains: a text stands in what is written around it.
pub record FindsParts (texts : TextOps) : Type 0 where
  pub finds :
      (before part after : String)
      → texts.contains (text_append before (text_append part after)) part ≡ true

module _ (texts : TextOps) where
  unfoldable pub entry : String → String → String
  entry level message =
      text_append "[AKOFLOW " (text_append (texts.upper level) (text_append "] " message))

  unfoldable pub append_log : String → String → String → String
  unfolding entry
  append_log log level message =
      if is_empty message
      then log
      else if texts.contains log (entry level message)
      then log
      else if is_empty log
      then text_append (entry level message) "\n"
      else text_append (text_append (texts.trim_newlines log) "\n")
          (text_append (entry level message) "\n")

  -- The lines before the first that the controller wrote, and the others.
  unfoldable pub before_lifecycle : List String → List String
  before_lifecycle [] = []
  before_lifecycle (line ∷ lines) =
      let rest = before_lifecycle lines in
      if texts.has_prefix line "[AKOFLOW " then [] else line ∷ rest

  unfoldable pub from_lifecycle : List String → List String
  from_lifecycle [] = []
  from_lifecycle (line ∷ lines) =
      let rest = from_lifecycle lines in
      if texts.has_prefix line "[AKOFLOW " then line ∷ lines else rest

  abbrev pub with_newline : String → String
  with_newline runtime_log = if is_empty runtime_log then "" else text_append runtime_log "\n"

  abbrev pub split_at : String → List String → List String → String × String
  split_at log before [] = (texts.trim_newlines log, "")
  split_at log before (line ∷ lines) = (
    with_newline (texts.join_lines before),
    text_append "\n" (text_append (texts.join_lines (line ∷ lines)) "\n"),
  )

  unfoldable pub split_lifecycle_log : String → String × String
  unfolding before_lifecycle from_lifecycle
  split_lifecycle_log log =
      let lines = texts.split_lines (texts.trim_newlines log) in
      split_at log (before_lifecycle lines) (from_lifecycle lines)

  unfoldable pub merge_logs : String → String → String
  unfolding split_lifecycle_log
  merge_logs previous observed =
      let (runtime_log, lifecycle_log) = split_lifecycle_log previous in
      if is_empty observed || observed == previous
      then previous
      else if is_empty runtime_log || texts.has_prefix observed runtime_log
      then text_append (texts.trim_newlines observed) lifecycle_log
      else if texts.has_prefix runtime_log observed
      then previous
      else text_append (texts.trim_newlines observed) lifecycle_log

  append_log-present :
      (log level message : String)
      → texts.contains log (entry level message) ≡ true
      → append_log log level message ≡ log
  unfolding append_log
  append_log-present log level message h = ground arith

  append_log-empty :
      (log level message : String) → is_empty message ≡ true → append_log log level message ≡ log
  unfolding append_log
  append_log-empty log level message h = rw h refl

  contains-append_log :
      FindsParts texts
      → (log level message : String) → is_empty message ≡ false
      → texts.contains (append_log log level message) (entry level message) ≡ true
  unfolding append_log
  contains-append_log found log level message h =
      rw h (elim (Bool-cases (texts.contains log (entry level message))) [
        | inl e ↦ rw e e
        | inr e ↦ rw e (elim (Bool-cases (is_empty log)) [
          | inl b ↦ rw b (
              subst (λ x. texts.contains x (entry level message) ≡ true)
                (append.nil (text_append (entry level message) "\n"))
                (found.finds "" (entry level message) "\n"))
          | inr b ↦
              rw b (
                found.finds (text_append (texts.trim_newlines log) "\n") (entry level message) "\n")
        ])
      ])

  -- With a search that finds a text in what is written around it: a message that is not empty stands in the log that it is appended to, and
  -- appending it again, at the same level, changes nothing.
  append_log_again :
      FindsParts texts
      → (log level message : String)
      → (is_empty message ≡ false
          → texts.contains (append_log log level message) (entry level message) ≡ true)
        × (append_log (append_log log level message) level message ≡ append_log log level message)
  append_log_again found log level message = (
    contains-append_log found log level message,
    elim (Bool-cases (is_empty message)) [
      | inl e ↦ append_log-empty _ level message e
      | inr e ↦
          append_log-present (append_log log level message) level message
            (contains-append_log found log level message e)
    ],
  )

unfoldable pub failure_message : String → String
failure_message failure =
    if is_empty failure then "Activity stopped without a reported failure reason." else failure
