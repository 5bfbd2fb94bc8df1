-- ===== src/Chat/Sides.antt =====
-- The side effects of one event: the tool that the client owns, the approval that the server waits
-- for, and the hooks.
use omnigent_go_sdk.Prelude.{
  ◌⊎◌, inl, inr, Bool, true, false, not, ◌||◌, ◌&&◌, [], Option, none, some, if◌then◌else◌,
  is_empty, leb, ltb, length,
}
use omnigent_go_sdk.Prelude.Text.{Text, codes, same, trim_space}
use omnigent_go_sdk.Prelude.Maps.{member, add}
use omnigent_go_sdk.Errors.{
  Err, invalid_argument, tool_call_duplicated, tool_call_budget, input_denied, hook_panicked,
  sanitize_for_error, max_error_field_runes, max_request_id_runes,
}
use omnigent_go_sdk.Wire.{
  Fields, item_string, ElicitationRequest, Event, response_created, queued, in_progress,
  response_completed, response_failed, incomplete, response_cancelled, reasoning_started, retry,
  error_event, output_file_done, elicitation_request, output_item_done,
}
use omnigent_go_sdk.BlockStream.Items.{item_arguments}
use omnigent_go_sdk.Tool.{ToolCallInfo, run_tool_of}
use omnigent_go_sdk.Chat.{
  on_reasoning_start, on_retry, on_server_error, on_file_output, on_tool_call_start,
  on_tool_call_end, ElicitationCtx, Decision, undecided, decided, broken_off, tool_run,
  output_posted, verdict_posted, EventAccepted, World, TurnRun, tool_budget, report, done, fire,
  announce_response, end_response,
}

-- What is reported when the output has been posted.
unfoldable pub after_post : TurnRun → Err ⊎ EventAccepted → Option Err → TurnRun
after_post run (inl err) run_err = report run err
after_post run (inr accepted) run_err =
    if accepted.denied
    then report run (input_denied (sanitize_for_error accepted.reason max_error_field_runes))
    else elim run_err [ none ↦ run | some err ↦ report run err ]

-- The call of PostEvent, which refuses an empty session id itself.
unfoldable pub post_output : World → TurnRun → (call_id output : Text) → Option Err → TurnRun
unfolding after_post done
post_output world run call_id output run_err =
    if is_empty world.session_id
    then after_post run (inl (invalid_argument (codes "sessionID is required"))) run_err
    else after_post (done run (output_posted world.session_id call_id output))
        (world.accepts_output run.effects call_id output) run_err

-- The method `runTool`.
unfoldable pub run_tool : World → TurnRun → ToolCallInfo → TurnRun
unfolding post_output fire done
run_tool world run info =
    let (output, run_err) = run_tool_of world.tools (length run.effects) info in
    let ran = done run (tool_run info) in
    let told = fire world ran (on_tool_call_end info.name info.call_id output run_err) in
    post_output world told info.call_id output run_err

-- The rest of `observeItem` for a call that awaits this client.
unfoldable pub dispatch : World → TurnRun → ToolCallInfo → TurnRun
unfolding run_tool tool_budget
dispatch world run info =
    let limit = tool_budget world.max_tool_calls in
    if member info.call_id run.dispatched
    then report run (tool_call_duplicated (sanitize_for_error info.call_id max_request_id_runes))
    else if ltb 0 limit && leb limit (length run.dispatched)
    then record (report run (tool_call_budget limit)) { unfinishable = true }
    else run_tool world (record run { dispatched = add info.call_id run.dispatched }) info

unfoldable pub awaits_client : Fields → Bool
awaits_client item = same (item_string item (codes "status")) (codes "action_required")

abbrev pub info_of : World → Fields → ToolCallInfo
info_of world item = record {
  name = trim_space (item_string item (codes "name"));
  arguments = item_arguments world.codec item;
  call_id = trim_space (item_string item (codes "call_id"));
  item_id = item_string item (codes "id");
}

-- The rest of `observeItem` for a call with a name and an id.
unfoldable pub observe_call : World → TurnRun → Fields → ToolCallInfo → TurnRun
unfolding dispatch awaits_client fire
observe_call world run item info =
    let executed_by = if awaits_client item then codes "client" else codes "server" in
    let told =
      fire world run
        (on_tool_call_start info (item_string item (codes "agent_name")) executed_by) in
    if awaits_client item then dispatch world told info else told

unfoldable pub observe_item : World → TurnRun → Fields → TurnRun
unfolding observe_call
observe_item world run item =
    let info = info_of world item in
    if not (same (item_string item (codes "type")) (codes "function_call"))
    then run
    else if is_empty info.call_id || is_empty info.name
    then run
    else observe_call world run item info

abbrev pub or_empty : Option Text → Text
or_empty none = []
or_empty (some t) = t

unfoldable pub elicitation_target : Text → ElicitationRequest → Text
elicitation_target reading e =
    if is_empty (or_empty e.target_session_id) then reading else or_empty e.target_session_id

unfoldable pub elicitation_ctx_of : Text → Text → ElicitationRequest → ElicitationCtx
unfolding elicitation_target
elicitation_ctx_of fallback response_id e = record {
  session_id = elicitation_target fallback e;
  elicitation_id = e.elicitation_id;
  message = e.message;
  requested_schema = e.requested_schema;
  extra = e.extra;
  response_id = response_id;
  mode = or_empty e.mode;
  url = or_empty e.url;
  phase = or_empty e.phase;
  policy_name = or_empty e.policy_name;
  content_preview = or_empty e.content_preview;
}

abbrev pub accepts : Decision → Bool
accepts undecided = false
accepts (decided b) = b
accepts (broken_off _) = false

-- The method `decideElicitation` beside its verdict: a panic is reported.
unfoldable pub after_decision : TurnRun → Decision → TurnRun
unfolding report
after_decision run (broken_off reason) = report run (
    hook_panicked (codes "OnElicitation, declined")
      (sanitize_for_error reason max_error_field_runes))
after_decision run _ = run

abbrev pub report_error : TurnRun → Option Err → TurnRun
report_error run none = run
report_error run (some err) = report run err

-- The call of ResolveElicitation, which refuses an empty id itself.
unfoldable pub post_verdict : World → TurnRun → (session_id elicitation_id : Text) → Bool → TurnRun
unfolding report done
post_verdict world run session_id elicitation_id accept =
    if is_empty session_id || is_empty elicitation_id
    then report run (invalid_argument (codes "sessionID and elicitationID are required"))
    else report_error (done run (verdict_posted session_id elicitation_id accept))
        (world.accepts_verdict run.effects session_id elicitation_id accept)

unfoldable pub resolve_elicitation : World → TurnRun → ElicitationRequest → TurnRun
unfolding after_decision post_verdict elicitation_target elicitation_ctx_of
resolve_elicitation world run e =
    let decision =
      world.on_elicitation run.effects (elicitation_ctx_of world.session_id run.response_id e) in
    post_verdict world (after_decision run decision) (elicitation_target world.session_id e)
      e.elicitation_id (accepts decision)

-- The method `act` of turnRun.
unfoldable pub act : World → TurnRun → Event → TurnRun
unfolding announce_response end_response fire observe_item resolve_elicitation
act world run (response_created r) = announce_response world run r
act world run (in_progress r) = announce_response world run r
act world run (queued r) = announce_response world run r
act world run reasoning_started = fire world run (on_reasoning_start run.response_id)
act world run (retry source attempt max_attempts _) =
    fire world run (on_retry source attempt max_attempts)
act world run (error_event source detail) =
    fire world run (on_server_error detail.message source detail.code)
act world run (output_file_done file_id filename) =
    fire world run (on_file_output file_id (or_empty filename))
act world run (elicitation_request e) = resolve_elicitation world run e
act world run (output_item_done item) = observe_item world run item
act world run (response_completed r) = end_response world run r
act world run (response_cancelled r) = end_response world run r
act world run (incomplete r) = end_response world run r
act world run (response_failed r) = end_response world run r
act world run _ = run
