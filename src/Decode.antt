-- ===== src/Decode.antt =====
-- event.go: the decoding of a server-sent event by its discriminator. A variant is decoded by
-- package encoding/json, which is a parameter.
use omnigent_go_sdk.Prelude.{◌⊎◌, inl, inr, List, [], ◌∷◌, if◌then◌else◌, is_empty, any}
use omnigent_go_sdk.Prelude.Text.{Text, codes, same}
use omnigent_go_sdk.Errors.{Err, returned}
use omnigent_go_sdk.Wire.{Event, other_event}

-- `type_of` reads the member `type` of an object, "" where it is missing, and `decode_into` reads
-- the variant of a discriminator.
pub record Json : Type 0 where
  pub type_of : Text → Err ⊎ Text
  pub decode_into : (wire raw : Text) → Err ⊎ Event

-- The keys of `eventRegistry`.
unfoldable pub event_registry : List Text
event_registry =
    codes "browser.action_request"
    ∷ codes "response.client_task.cancel"
    ∷ codes "response.compaction.completed"
    ∷ codes "response.compaction.failed"
    ∷ codes "response.compaction.in_progress"
    ∷ codes "response.elicitation_request"
    ∷ codes "response.elicitation_resolved"
    ∷ codes "response.error"
    ∷ codes "response.in_progress"
    ∷ codes "response.incomplete"
    ∷ codes "response.output_file.done"
    ∷ codes "response.output_item.done"
    ∷ codes "response.output_text.delta"
    ∷ codes "response.policy_denied"
    ∷ codes "response.queued"
    ∷ codes "response.reasoning.started"
    ∷ codes "response.reasoning_summary_text.delta"
    ∷ codes "response.reasoning_text.delta"
    ∷ codes "response.cancelled"
    ∷ codes "response.completed"
    ∷ codes "response.created"
    ∷ codes "response.failed"
    ∷ codes "response.heartbeat"
    ∷ codes "response.retry"
    ∷ codes "session.agent_changed"
    ∷ codes "session.changed_files.invalidated"
    ∷ codes "session.child_session.updated"
    ∷ codes "session.collaboration_mode"
    ∷ codes "session.created"
    ∷ codes "session.heartbeat"
    ∷ codes "session.input.consumed"
    ∷ codes "session.interrupted"
    ∷ codes "session.mcp_startup"
    ∷ codes "session.model"
    ∷ codes "session.model_options"
    ∷ codes "session.presence"
    ∷ codes "session.reasoning_effort"
    ∷ codes "session.resource.created"
    ∷ codes "session.resource.deleted"
    ∷ codes "session.sandbox_status"
    ∷ codes "session.skills"
    ∷ codes "session.status"
    ∷ codes "session.superseded"
    ∷ codes "session.terminal.activity"
    ∷ codes "session.terminal_pending"
    ∷ codes "session.todos"
    ∷ codes "session.usage"
    ∷ codes "response.function_call_output.delta"
    ∷ codes "turn.cancelled"
    ∷ codes "turn.completed"
    ∷ codes "turn.failed"
    ∷ codes "turn.started"
    ∷ []

unfoldable pub decode_by_type : Json → (wire raw : Text) → Err ⊎ Event
unfolding event_registry
decode_by_type json wire raw =
    if any (same wire) event_registry then json.decode_into wire raw else inr (other_event wire)

unfoldable pub decode_named : Json → (raw : Text) → Err ⊎ Text → Err ⊎ Event
unfolding decode_by_type
decode_named json raw (inl err) = inl err
decode_named json raw (inr wire) =
    if is_empty wire
    then inl (returned (codes "omnigent: event carries no type discriminator"))
    else decode_by_type json wire raw

unfoldable pub decode_event : Json → (raw : Text) → Err ⊎ Event
unfolding decode_named
decode_event json raw = decode_named json raw (json.type_of raw)
