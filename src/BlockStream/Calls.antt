-- ===== src/BlockStream/Calls.antt =====
-- The fold of finished output items into blocks.
use omnigent_go_sdk.Prelude.{◌||◌, [], ◌∷◌, Option, none, some, if◌then◌else◌, is_empty}
use omnigent_go_sdk.Prelude.Text.{Text, codes, same}
use omnigent_go_sdk.Prelude.Maps.{lookup, insert, member, add}
use omnigent_go_sdk.Wire.{Fields, field?, as_object, item_string}
use omnigent_go_sdk.Block.{ToolExecution, ToolResult, tool_group, tool_result, native_tool}
use omnigent_go_sdk.BlockStream.State.{BlockState, put}
use omnigent_go_sdk.BlockStream.Text.{close_text}
use omnigent_go_sdk.BlockStream.Reasoning.{close_reasoning}
use omnigent_go_sdk.BlockStream.Items.{
  Codec, format_tool_args_brief, item_arguments, output_text_from_content, format_native_label,
}

unfoldable pub new_execution : Codec → Fields → Text → ToolExecution
new_execution codec item call_id =
    let name = item_string item (codes "name") in
    let arguments = item_arguments codec item in
    record {
      name = name;
      arguments = arguments;
      args_summary = format_tool_args_brief codec name arguments;
      call_id = call_id;
      agent_name = item_string item (codes "agent_name");
      executed_by = codes "server";
      output = none;
    }

unfoldable pub show_call : BlockState → Text → ToolExecution → BlockState
show_call s call_id execution =
    let seen = record s { seen_calls = add call_id s.seen_calls } in
    let closed = close_text (close_reasoning seen) in
    if member call_id s.seen_calls then s else put closed (tool_group closed.ctx (execution ∷ []))

-- The execution that is known for the call, or a new one that is kept.
unfoldable pub know_call : BlockState → Text → ToolExecution → Option ToolExecution → BlockState
unfolding show_call
know_call s call_id fresh (some prior) = show_call s call_id prior
know_call s call_id fresh none =
    show_call (record s { executions = insert call_id fresh s.executions }) call_id fresh

unfoldable pub fold_tool_call : Codec → BlockState → Fields → BlockState
unfolding new_execution know_call
fold_tool_call codec s item =
    let call_id = item_string item (codes "call_id") in
    if is_empty call_id
    then s
    else know_call s call_id (new_execution codec item call_id) (lookup call_id s.executions)

-- A result whose call was not reported is shown with what it carries itself.
unfoldable pub execution_of : Fields → Text → Option ToolExecution → ToolExecution
execution_of item call_id (some known) = known
execution_of item call_id none = record {
  name = item_string item (codes "name");
  arguments = none;
  args_summary = [];
  call_id = call_id;
  agent_name = [];
  executed_by = [];
  output = none;
}

-- The result is kept with its call, and the call id is marked.
unfoldable pub keep_result : BlockState → Text → Text → ToolExecution → BlockState
keep_result s call_id output execution = record s {
  executions = insert call_id (record execution { output = some output }) s.executions;
  seen_results = add call_id s.seen_results;
}

abbrev pub result_of : Text → Text → ToolExecution → ToolResult
result_of call_id output execution = record {
  name = execution.name;
  call_id = call_id;
  agent_name = execution.agent_name;
  output = output;
  arguments = execution.arguments;
  args_summary = execution.args_summary;
}

unfoldable pub show_result : BlockState → Text → Text → ToolExecution → BlockState
unfolding keep_result
show_result s call_id output execution =
    let s' = keep_result s call_id output execution in
    put s' (tool_result s'.ctx (result_of call_id output execution))

unfoldable pub fold_tool_result : BlockState → Fields → BlockState
unfolding execution_of show_result
fold_tool_result s item =
    let call_id = item_string item (codes "call_id") in
    if is_empty call_id || member call_id s.seen_results
    then s
    else show_result s call_id (item_string item (codes "output"))
        (execution_of item call_id (lookup call_id s.executions))

unfoldable pub fold_message : BlockState → Fields → BlockState
fold_message s item =
    let text = output_text_from_content item in
    if is_empty text then close_text s else close_text (record s { full_text = text })

abbrev payload_of : Fields → Option Fields → Fields
payload_of item none = item
payload_of item (some fs) = fs

unfoldable pub fold_native_tool : BlockState → Fields → BlockState
fold_native_tool s item =
    let tool_type = item_string item (codes "type") in
    let payload = payload_of item (as_object (field? item (codes "data"))) in
    put s (native_tool s.ctx tool_type (format_native_label tool_type payload) payload)

unfoldable pub fold_item : Codec → BlockState → Fields → BlockState
unfolding fold_tool_call fold_tool_result fold_message fold_native_tool
fold_item codec s item =
    let kind = item_string item (codes "type") in
    if same kind (codes "function_call")
    then fold_tool_call codec s item
    else if same kind (codes "function_call_output")
    then fold_tool_result s item
    else if same kind (codes "message")
    then fold_message s item
    else if is_empty kind
    then s
    else fold_native_tool s item
