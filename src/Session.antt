-- ===== src/Session.antt =====
-- session.go, files.go and resolve of client.go: the guards of the session and file operations, and
-- the requests that they send. A request's query is left out, and its body is what the operation puts
-- into it; the answer of net/http is not modelled here.
pub mod Calls
pub mod Directory
pub mod Sound
mod Examples
use omnigent_go_sdk.Prelude.{
  ℕ, ◌⊎◌, inl, inr, Bool, true, false, ◌||◌, List, [], ◌∷◌, ◌++◌, Option, none, some, if◌then◌else◌,
  is_empty, any, ◌==◌,
}
use omnigent_go_sdk.Prelude.Int.{ℤ, pos, negsuc}
use omnigent_go_sdk.Prelude.Text.{Text, codes, same}
use omnigent_go_sdk.Errors.{Err, invalid_argument}

pub record UpdateSessionRequest : Type 0 where
  pub runner_id : Option Text
  pub model_override : Option Text
  pub reasoning_effort : Option Text
  pub archived : Option Bool
  pub external_session_id : Option Text

-- What a request carries: nothing, an update, an input of a type with a text, or a value of the
-- caller's.
pub data Body : Type 0 where
  no_body caller_body : Body
  update_body : UpdateSessionRequest → Body
  input_body : (type_of text : Text) → Body

pub record Request : Type 0 where
  pub method : Text
  pub segments : List Text
  pub body : Body

abbrev pub is_dot_segment : Text → Bool
is_dot_segment segment = same segment (codes ".") || same segment (codes "..")

-- A guard: whether an argument is missing, and the message for that.
abbrev pub Guard : Type 0
Guard = Bool × Text

-- What an operation does: its guards in order, and the request behind them.
pub record Plan : Type 0 where
  pub guards : List Guard
  pub request : Request

-- A guard before those of a plan.
abbrev guarded_by : (missing : Bool) → Text → Plan → Plan
guarded_by missing what p = record p { guards = (missing, what) ∷ p.guards }

abbrev sends_to : (method : Text) → List Text → Body → Plan
sends_to method segments body = record {
  guards = [];
  request = record { method = method; segments = segments; body = body };
}

abbrev pub under_session : (session_id : Text) → List Text → List Text
under_session session_id rest = codes "v1" ∷ codes "sessions" ∷ session_id ∷ rest

unfoldable pub update : (session_id : Text) → UpdateSessionRequest → Plan
update session_id req =
    guarded_by (is_empty session_id) (codes "sessionID is required")
      (sends_to (codes "PATCH") (under_session session_id []) (update_body req))

abbrev pub no_update : UpdateSessionRequest
no_update = record {
  runner_id = none;
  model_override = none;
  reasoning_effort = none;
  archived = none;
  external_session_id = none;
}

abbrev pub clear_override_alias : Text
clear_override_alias = codes "default"

unfoldable pub post_event : (session_id type_of text : Text) → Plan
post_event session_id type_of text =
    guarded_by (is_empty session_id) (codes "sessionID is required") (
      guarded_by (is_empty type_of) (codes "Type is required") (
        sends_to (codes "POST") (under_session session_id (codes "events" ∷ []))
          (input_body type_of text)))

unfoldable pub file_segments : (session_id : Text) → List Text → List Text
file_segments session_id rest = under_session session_id (codes "resources" ∷ codes "files" ∷ rest)

unfoldable pub header_unsafe : ℕ → Bool
header_unsafe r = r == 13 || r == 10 || r == 0

unfoldable pub not_positive : ℤ → Bool
not_positive (pos n) = n == 0
not_positive (negsuc n) = true

unfoldable pub create_plan : (agent_id : Text) → Plan
create_plan agent_id =
    guarded_by (is_empty agent_id) (codes "AgentID is required")
      (sends_to (codes "POST") (codes "v1" ∷ codes "sessions" ∷ []) caller_body)

unfoldable pub get_session_plan : (s : Text) → Plan
get_session_plan s =
    guarded_by (is_empty s) (codes "sessionID is required")
      (sends_to (codes "GET") (under_session s []) no_body)

unfoldable pub delete_session_plan : (s : Text) → Plan
delete_session_plan s =
    guarded_by (is_empty s) (codes "sessionID is required")
      (sends_to (codes "DELETE") (under_session s []) no_body)

unfoldable pub fork_session_plan : (s : Text) → Plan
fork_session_plan s =
    guarded_by (is_empty s) (codes "sessionID is required")
      (sends_to (codes "POST") (under_session s (codes "fork" ∷ [])) caller_body)

unfoldable pub list_items_plan : (s : Text) → Plan
list_items_plan s =
    guarded_by (is_empty s) (codes "sessionID is required")
      (sends_to (codes "GET") (under_session s (codes "items" ∷ [])) no_body)

unfoldable pub children_plan : (s : Text) → Plan
children_plan s =
    guarded_by (is_empty s) (codes "sessionID is required")
      (sends_to (codes "GET") (under_session s (codes "child_sessions" ∷ [])) no_body)

unfoldable pub list_sessions_plan : Plan
list_sessions_plan = sends_to (codes "GET") (codes "v1" ∷ codes "sessions" ∷ []) no_body

unfoldable pub list_agents_plan : Plan
list_agents_plan = sends_to (codes "GET") (codes "v1" ∷ codes "agents" ∷ []) no_body

unfoldable pub list_runners_plan : Plan
list_runners_plan = sends_to (codes "GET") (codes "v1" ∷ codes "runners" ∷ []) no_body

unfoldable pub update_session_plan : (s : Text) (req : UpdateSessionRequest) → Plan
unfolding update
update_session_plan s req = update s req

unfoldable pub bind_runner_plan : (s : Text) (runner : Text) → Plan
unfolding update
bind_runner_plan s runner =
    guarded_by (is_empty runner) (codes "runnerID is required")
      (update s (record no_update { runner_id = some runner }))

unfoldable pub set_model_override_plan : (s : Text) (model : Text) → Plan
unfolding update
set_model_override_plan s model =
    guarded_by (is_empty model) (codes "model is empty; use ClearModelOverride")
      (update s (record no_update { model_override = some model }))

unfoldable pub clear_model_override_plan : (s : Text) → Plan
unfolding update
clear_model_override_plan s =
    update s (record no_update { model_override = some clear_override_alias })

unfoldable pub set_reasoning_effort_plan : (s : Text) (effort : Text) → Plan
unfolding update
set_reasoning_effort_plan s effort =
    guarded_by (is_empty effort) (codes "effort is empty; use ClearReasoningEffort")
      (update s (record no_update { reasoning_effort = some effort }))

unfoldable pub clear_reasoning_effort_plan : (s : Text) → Plan
unfolding update
clear_reasoning_effort_plan s =
    update s (record no_update { reasoning_effort = some clear_override_alias })

unfoldable pub set_archived_plan : (s : Text) (archived : Bool) → Plan
unfolding update
set_archived_plan s archived = update s (record no_update { archived = some archived })

unfoldable pub set_external_id_plan : (s : Text) (id : Text) → Plan
unfolding update
set_external_id_plan s id = update s (record no_update { external_session_id = some id })

unfoldable pub post_input_plan : (s : Text) (type_of : Text) (text : Text) → Plan
unfolding post_event
post_input_plan s type_of text = post_event s type_of text

unfoldable pub send_message_plan : (s : Text) (text : Text) → Plan
unfolding post_event
send_message_plan s text = post_event s (codes "message") text

unfoldable pub interrupt_plan : (s : Text) → Plan
unfolding post_event
interrupt_plan s = post_event s (codes "interrupt") []

unfoldable pub compact_plan : (s : Text) → Plan
unfolding post_event
compact_plan s = post_event s (codes "compact") []

unfoldable pub resolve_elicitation_plan : (s : Text) (e : Text) (action : Text) → Plan
resolve_elicitation_plan s e action =
    guarded_by (is_empty s || is_empty e) (codes "sessionID and elicitationID are required") (
      guarded_by (is_empty action) (codes "Action is required") (
        sends_to (codes "POST") (under_session s (codes "elicitations" ∷ e ∷ codes "resolve" ∷ []))
          caller_body))

unfoldable pub list_files_plan : (s : Text) → Plan
unfolding file_segments
list_files_plan s =
    guarded_by (is_empty s) (codes "sessionID is required")
      (sends_to (codes "GET") (file_segments s []) no_body)

unfoldable pub get_file_plan : (s : Text) (f : Text) → Plan
unfolding file_segments
get_file_plan s f =
    guarded_by (is_empty s || is_empty f) (codes "sessionID and fileID are required")
      (sends_to (codes "GET") (file_segments s (f ∷ [])) no_body)

unfoldable pub delete_file_plan : (s : Text) (f : Text) → Plan
unfolding file_segments
delete_file_plan s f =
    guarded_by (is_empty s || is_empty f) (codes "sessionID and fileID are required")
      (sends_to (codes "DELETE") (file_segments s (f ∷ [])) no_body)

unfoldable pub upload_file_plan : (s : Text) (filename : Text) (nil_content : Bool) → Plan
unfolding file_segments header_unsafe
upload_file_plan s filename nil_content = guarded_by (is_empty s) (codes "sessionID is required") (
    guarded_by (is_empty filename) (codes "filename is required") (
      guarded_by (any header_unsafe filename) (codes "filename would forge a multipart header") (
        guarded_by nil_content (codes "content is nil")
          (sends_to (codes "POST") (file_segments s []) caller_body))))

unfoldable pub download_file_plan : (s : Text) (f : Text) (max_bytes : ℤ) → Plan
unfolding file_segments not_positive
download_file_plan s f max_bytes =
    guarded_by (is_empty s || is_empty f) (codes "sessionID and fileID are required") (
      guarded_by (not_positive max_bytes) (codes "maxBytes must be positive")
        (sends_to (codes "GET") (file_segments s (f ∷ codes "content" ∷ [])) no_body))
