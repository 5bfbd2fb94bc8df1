-- ===== src/Chat.antt =====
-- chat.go and `fire` of hooks.go: the loop that drives one turn. The tracker is in Turn.
pub mod Sides
pub mod Loop
pub mod Rules
pub mod Kept
pub mod Acts
pub mod Lawful
pub mod Emits
pub mod Civil
pub mod Closing
mod Examples
use omnigent_go_sdk.Prelude.{
  ℕ, zero, suc, ◌⊎◌, inl, inr, Bool, true, false, not, ◌||◌, ◌&&◌, List, [], ◌∷◌, ◌++◌, Option,
  none, some, if◌then◌else◌, is_empty, leb, ltb, length,
}
use omnigent_go_sdk.Prelude.Text.{Text, codes, same, trim_space}
use omnigent_go_sdk.Prelude.Maps.{TextSet, member, add}
use omnigent_go_sdk.Prelude.Int.{ℤ, pos, negsuc}
use omnigent_go_sdk.Errors.{
  Err, invalid_argument, tool_call_duplicated, tool_call_budget, input_denied, hook_panicked,
  sanitize_for_error, max_error_field_runes, max_request_id_runes,
}
use omnigent_go_sdk.Wire.{
  Fields, ResponseObject, item_string, ElicitationRequest, ErrorDetail, Event, response_created,
  queued, in_progress, response_completed, response_failed, incomplete, response_cancelled,
  reasoning_started, retry, error_event, output_file_done, elicitation_request, output_item_done,
}
use omnigent_go_sdk.Sequence.{Step, value, failure, Consumer, handed}
use omnigent_go_sdk.BlockStream.Items.{Codec, item_arguments}
use omnigent_go_sdk.Turn.{TurnTracker, track}
use omnigent_go_sdk.Tool.{ToolCallInfo, ToolRegistry, run_tool_of}

-- A call of an observer's hook, with its payload.
pub data HookCall : Type 0 where
  on_response_start : (response_id model : Text) → HookCall
  on_response_end : (response_id status : Text) → HookCall
  on_reasoning_start : (response_id : Text) → HookCall
  on_retry : (source : Text) (attempt max_attempts : ℤ) → HookCall
  on_server_error : (message source code : Text) → HookCall
  on_file_output : (file_id filename : Text) → HookCall
  on_tool_call_start : ToolCallInfo → (agent_name executed_by : Text) → HookCall
  on_tool_call_end : (name call_id output : Text) → Option Err → HookCall

abbrev hook_name : HookCall → Text
hook_name (on_response_start _ _) = codes "OnResponseStart"
hook_name (on_response_end _ _) = codes "OnResponseEnd"
hook_name (on_reasoning_start _) = codes "OnReasoningStart"
hook_name (on_retry _ _ _) = codes "OnRetry"
hook_name (on_server_error _ _ _) = codes "OnServerError"
hook_name (on_file_output _ _) = codes "OnFileOutput"
hook_name (on_tool_call_start _ _ _) = codes "OnToolCallStart"
hook_name (on_tool_call_end _ _ _ _) = codes "OnToolCallEnd"

-- No hook is set, the hook returns, or it panics.
pub data HookOutcome : Type 0 where
  unset completed : HookOutcome
  panicked : Text → HookOutcome

-- The question put to OnElicitation, and what comes of it.
pub record ElicitationCtx : Type 0 where
  pub session_id : Text
  pub elicitation_id : Text
  pub message : Text
  pub requested_schema : Option Fields
  pub extra : Fields
  pub response_id : Text
  pub mode : Text
  pub url : Text
  pub phase : Text
  pub policy_name : Text
  pub content_preview : Text

pub data Decision : Type 0 where
  undecided : Decision
  decided : Bool → Decision
  broken_off : Text → Decision

-- What a turn does beside handing events over, in order.
pub data Effect : Type 0 where
  hooked : HookCall → Effect
  tool_run : ToolCallInfo → Effect
  output_posted : (session_id call_id output : Text) → Effect
  verdict_posted : (session_id elicitation_id : Text) → (accept : Bool) → Effect

-- What a turn reads of the server's answer to a posted event.
pub record EventAccepted : Type 0 where
  pub item_id : Text
  pub pending_id : Text
  pub denied : Bool
  pub reason : Text

-- The chat, and what its caller and the server answer after the given effects. A refused
-- connection and a response that is no success are errors that doJSON returns.
pub record World : Type 0 where
  pub session_id : Text
  pub max_tool_calls : ℤ
  pub tools : Option ToolRegistry
  pub codec : Codec
  pub hooks : List Effect → HookCall → HookOutcome
  pub on_elicitation : List Effect → ElicitationCtx → Decision
  pub accepts_output : List Effect → (call_id output : Text) → Err ⊎ EventAccepted
  pub accepts_verdict : List Effect → (session_id elicitation_id : Text) → Bool → Option Err

pub record TurnRun : Type 0 where
  pub tracker : TurnTracker
  pub yield : Consumer Event
  -- what `yield` was handed, in order
  pub out : List (Step Event)
  pub stopped : Bool
  pub dispatched : TextSet
  pub response_id : Text
  pub unfinishable : Bool
  pub announced : TextSet
  pub effects : List Effect

abbrev pub default_max_tool_calls : ℕ
default_max_tool_calls = 1024

-- 0 is no cap.
unfoldable pub tool_budget : ℤ → ℕ
tool_budget (pos zero) = default_max_tool_calls
tool_budget (pos (suc n)) = suc n
tool_budget (negsuc n) = 0

unfoldable pub emit : TurnRun → Step Event → TurnRun
emit run step =
    let out = handed run.stopped run.out step in
    record run { out = out; stopped = run.stopped || not (run.yield out) }

unfoldable pub report : TurnRun → Err → TurnRun
unfolding emit
report run err = emit run (failure none err)

unfoldable pub done : TurnRun → Effect → TurnRun
done run effect = record run { effects = run.effects ++ effect ∷ [] }

unfoldable pub fire_outcome : TurnRun → HookCall → HookOutcome → TurnRun
unfolding report done
fire_outcome run call unset = run
fire_outcome run call completed = done run (hooked call)
fire_outcome run call (panicked reason) =
    report (done run (hooked call))
      (hook_panicked (hook_name call) (sanitize_for_error reason max_error_field_runes))

unfoldable pub fire : World → TurnRun → HookCall → TurnRun
unfolding fire_outcome
fire world run call = fire_outcome run call (world.hooks run.effects call)

unfoldable pub begin_response : TurnRun → Text → TurnRun
begin_response run id =
    if is_empty id || same run.response_id id then run else record run { response_id = id }

abbrev track_response : TurnRun → Event → TurnRun
unfolding begin_response
track_response run (response_created r) = begin_response run r.id
track_response run (in_progress r) = begin_response run r.id
track_response run (queued r) = begin_response run r.id
track_response run _ = run

-- The method `track` of turnRun.
unfoldable pub track_run : TurnRun → Event → TurnRun
unfolding begin_response
track_run run e = record (track_response run e) { tracker = track run.tracker e }

unfoldable pub announce_response : World → TurnRun → ResponseObject → TurnRun
unfolding fire
announce_response world run r =
    if is_empty r.id || member r.id run.announced
    then run
    else fire world (record run { announced = add r.id run.announced })
        (on_response_start r.id r.model)

unfoldable pub end_response : World → TurnRun → ResponseObject → TurnRun
unfolding announce_response fire
end_response world run r =
    fire world (announce_response world run r) (on_response_end r.id r.status)
