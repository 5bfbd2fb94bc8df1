-- ===== src/Tool.antt =====
-- tool.go: the registry of the tools that a client runs for the agent. A nil registry is none; a
-- nil map of a registry reads as an empty one, and a registration makes it.
pub mod Listed
mod Examples
use omnigent_go_sdk.Prelude.{
  ℕ, ◌⊎◌, inl, inr, Bool, true, false, List, [], ◌∷◌, ◌++◌, Option, none, some, if◌then◌else◌,
  is_empty, ltb, ◌==◌, ◌||◌, ◌&&◌,
}
use omnigent_go_sdk.Prelude.Text.{Text, codes}
use omnigent_go_sdk.Prelude.Maps.{TextMap, lookup, insert}
use omnigent_go_sdk.Errors.{
  Err, invalid_argument, tool_not_registered, tool_failed, sanitize_for_error, max_tool_name_runes,
  max_error_field_runes,
}
use omnigent_go_sdk.Wire.{Fields, end, field}

pub record ToolCallInfo : Type 0 where
  pub name : Text
  pub arguments : Option Fields
  pub call_id : Text
  pub item_id : Text

-- What a caller's function does with a call: it returns an output, or an error with its text, or
-- it panics.
pub data ToolOutcome : Type 0 where
  answered erred crashed : Text → ToolOutcome

-- A tool may answer the same call in another way at another moment.
abbrev pub ToolFunc : Type 0
ToolFunc = ℕ → ToolCallInfo → ToolOutcome

pub record ToolRegistry : Type 0 where
  pub tools : TextMap ToolFunc
  pub schemas : TextMap Fields

-- A nil function is none, and the schema of a nil map is empty.
unfoldable pub register : ToolRegistry → Text → Fields → Option ToolFunc → Err ⊎ ToolRegistry
register r name schema none =
    if is_empty name
    then inl (invalid_argument (codes "name is required"))
    else inl (invalid_argument (codes "run is nil"))
register r name schema (some run) =
    if is_empty name
    then inl (invalid_argument (codes "name is required"))
    else inr (record { tools = insert name run r.tools; schemas = insert name schema r.schemas })

-- The order of Go's strings, on code points.
unfoldable pub text_before : Text → Text → Bool
text_before s [] = false
text_before [] (c ∷ t) = true
text_before (a ∷ s) (c ∷ t) = ltb a c || ((a == c) && text_before s t)

unfoldable pub place : Text → List Text → List Text
place k [] = k ∷ []
place k (j ∷ js) = if text_before j k then j ∷ place k js else k ∷ j ∷ js

unfoldable pub sorted_keys {ℓ} : {V : Type ℓ} → TextMap V → List Text
unfolding place
sorted_keys [] = []
sorted_keys ((k, v) ∷ m) = place k (sorted_keys m)

unfoldable pub names : Option ToolRegistry → List Text
unfolding sorted_keys
names none = []
names (some r) = sorted_keys r.tools

abbrev keep_schema : Option Fields → List Fields → List Fields
keep_schema none rest = rest
keep_schema (some end) rest = rest
keep_schema (some (field k v fs)) rest = field k v fs ∷ rest

schemas_of : TextMap Fields → List Text → List Fields
schemas_of m [] = []
schemas_of m (name ∷ rest) = keep_schema (lookup name m) (schemas_of m rest)

unfoldable pub schemas : Option ToolRegistry → List Fields
unfolding schemas_of names
schemas none = []
schemas (some r) = schemas_of r.schemas (names (some r))

unfoldable pub lookup_tool : Option ToolRegistry → Text → Option ToolFunc
lookup_tool none name = none
lookup_tool (some r) name = lookup name r.tools

-- What `run` makes of the outcome: the output to post, and the error to report.
unfoldable pub conclude : Text → ToolOutcome → Text × Option Err
conclude safe_name (answered output) = (output, none)
conclude safe_name (erred message) =
    (codes "error: " ++ message, some (tool_failed (safe_name ++ codes ": " ++ message)))
conclude safe_name (crashed panic) =
    let reason = sanitize_for_error panic max_error_field_runes in
    (
      codes "error: the tool panicked: " ++ reason,
      some (tool_failed (safe_name ++ codes " panicked: " ++ reason)),
    )

unfoldable pub run_known : List Text → ℕ → ToolCallInfo → Option ToolFunc → Text × Option Err
unfolding conclude
run_known registered moment info none =
    let safe_name = sanitize_for_error info.name max_tool_name_runes in
    (
      codes "error: no tool named " ++ safe_name ++ codes " is registered with this client",
      some (tool_not_registered safe_name registered),
    )
run_known registered moment info (some run) =
    conclude (sanitize_for_error info.name max_tool_name_runes) (run moment info)

-- The quotation marks of %q are left out of the texts.
unfoldable pub run_tool_of : Option ToolRegistry → ℕ → ToolCallInfo → Text × Option Err
unfolding run_known lookup_tool names
run_tool_of r moment info = run_known (names r) moment info (lookup_tool r info.name)
