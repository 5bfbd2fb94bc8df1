-- ===== src/Wire.antt =====
-- The values that the server sends, as the hand-written code reads them: JSON objects, the
-- response snapshot of internal/api, and the events of event.go that a type switch names.
use omnigent_go_sdk.Prelude.{Bool, Option, none, some, [], if◌then◌else◌}
use omnigent_go_sdk.Prelude.Text.{Text, same}
use omnigent_go_sdk.Prelude.Int.{ℤ}

-- What encoding/json decodes into an `any`. A number is its literal: no modelled function
-- computes with one.
mutual
  pub data Value : Type 0 where
    null : Value
    bool : Bool → Value
    num : Text → Value
    str : Text → Value
    arr : Items → Value
    obj : Fields → Value

  pub data Items : Type 0 where
    nil : Items
    cons : Value → Items → Items

  -- a map[string]any
  pub data Fields : Type 0 where
    end : Fields
    field : Text → Value → Fields → Fields

-- item[key], which is nil where the key is missing
unfoldable pub field? : Fields → Text → Value
field? end key = null
field? (field k v rest) key = if same k key then v else field? rest key

-- v.(string), or "" where the assertion fails
abbrev pub as_string : Value → Text
as_string (str t) = t
as_string _ = []

-- v.(map[string]any)
abbrev pub as_object : Value → Option Fields
as_object (obj fs) = some fs
as_object _ = none

-- v.([]any), or no items where the assertion fails
abbrev pub as_items : Value → Items
as_items (arr xs) = xs
as_items _ = nil

-- itemString
unfoldable pub item_string : Fields → Text → Text
unfolding field?
item_string item key = as_string (field? item key)

pub record ErrorDetail : Type 0 where
  pub code : Text
  pub message : Text

-- The fields of a ResponseObject that the package reads.
pub record ResponseObject : Type 0 where
  pub id : Text
  pub model : Text
  pub status : Text
  pub error : Option ErrorDetail

pub record InputConsumed : Type 0 where
  pub item_id : Text
  pub cleared_pending_id : Option Text

pub data SessionStatus : Type 0 where
  idle failed : SessionStatus
  -- launching, running, waiting, or a status that this build does not know
  other_status : Text → SessionStatus

pub record StatusEdge : Type 0 where
  pub conversation_id : Text
  pub status : SessionStatus
  pub response_id : Option Text
  pub error : Option ErrorDetail

pub record Superseded : Type 0 where
  pub conversation_id : Text
  pub target_conversation_id : Text

pub record ElicitationRequest : Type 0 where
  pub elicitation_id : Text
  pub target_session_id : Option Text
  pub message : Text
  pub requested_schema : Option Fields
  pub extra : Fields
  pub mode : Option Text
  pub url : Option Text
  pub phase : Option Text
  pub policy_name : Option Text
  pub content_preview : Option Text

-- The events that a type switch of the package names. `other_event` stands for every other
-- variant, an UnknownEvent among them.
pub data Event : Type 0 where
  response_created queued in_progress : ResponseObject → Event
  response_completed response_failed incomplete response_cancelled : ResponseObject → Event
  reasoning_started : Event
  reasoning_text_delta reasoning_summary_text_delta output_text_delta : Text → Event
  output_item_done : Fields → Event
  compaction_in_progress : Event
  retry : (source : Text) (attempt max_attempts : ℤ) (delay_seconds : Text) → Event
  error_event : (source : Text) → ErrorDetail → Event
  output_file_done : (file_id : Text) → Option Text → Event
  elicitation_request : ElicitationRequest → Event
  input_consumed : InputConsumed → Event
  status_edge : StatusEdge → Event
  superseded : Superseded → Event
  other_event : Text → Event
