-- ===== src/Session/Calls.antt =====
-- session.go, files.go and resolve of client.go: an operation from its guards to its request.
use omnigent_go_sdk.Prelude.{◌⊎◌, inl, inr, Bool, List, [], ◌∷◌, if◌then◌else◌, any}
use omnigent_go_sdk.Prelude.Int.{ℤ}
use omnigent_go_sdk.Prelude.Text.{Text, codes}
use omnigent_go_sdk.Errors.{Err, invalid_argument}
use omnigent_go_sdk.Session.{
  UpdateSessionRequest, Request, Guard, Plan, is_dot_segment, create_plan, get_session_plan,
  delete_session_plan, fork_session_plan, list_items_plan, children_plan, list_sessions_plan,
  list_agents_plan, list_runners_plan, update_session_plan, bind_runner_plan,
  set_model_override_plan, clear_model_override_plan, set_reasoning_effort_plan,
  clear_reasoning_effort_plan, set_archived_plan, set_external_id_plan, post_input_plan,
  send_message_plan, interrupt_plan, compact_plan, resolve_elicitation_plan, list_files_plan,
  get_file_plan, delete_file_plan, upload_file_plan, download_file_plan,
}

-- The operations of Sessions and SessionFiles that send one request, with the arguments that their
-- guards read; `filename` and `max_bytes` are those of Upload and Download.
pub data Operation : Type 0 where
  create : (agent_id : Text) → Operation
  get_session delete_session fork_session list_items children : (session_id : Text) → Operation
  list_sessions list_agents list_runners : Operation
  update_session : (session_id : Text) → UpdateSessionRequest → Operation
  bind_runner set_model_override set_reasoning_effort set_external_id :
      (session_id value : Text) → Operation
  clear_model_override clear_reasoning_effort : (session_id : Text) → Operation
  set_archived : (session_id : Text) → Bool → Operation
  post_input : (session_id type_of text : Text) → Operation
  send_message : (session_id text : Text) → Operation
  interrupt compact : (session_id : Text) → Operation
  resolve_elicitation : (session_id elicitation_id action : Text) → Operation
  list_files : (session_id : Text) → Operation
  get_file delete_file : (session_id file_id : Text) → Operation
  upload_file : (session_id filename : Text) (nil_content : Bool) → Operation
  download_file : (session_id file_id : Text) (max_bytes : ℤ) → Operation

unfoldable pub plan_of : Operation → Plan
unfolding create_plan get_session_plan delete_session_plan fork_session_plan list_items_plan
    children_plan list_sessions_plan list_agents_plan list_runners_plan update_session_plan
    bind_runner_plan set_model_override_plan clear_model_override_plan set_reasoning_effort_plan
    clear_reasoning_effort_plan set_archived_plan set_external_id_plan post_input_plan
    send_message_plan interrupt_plan compact_plan resolve_elicitation_plan list_files_plan
    get_file_plan delete_file_plan upload_file_plan download_file_plan
plan_of (create agent_id) = create_plan agent_id
plan_of (get_session s) = get_session_plan s
plan_of (delete_session s) = delete_session_plan s
plan_of (fork_session s) = fork_session_plan s
plan_of (list_items s) = list_items_plan s
plan_of (children s) = children_plan s
plan_of list_sessions = list_sessions_plan
plan_of list_agents = list_agents_plan
plan_of list_runners = list_runners_plan
plan_of (update_session s req) = update_session_plan s req
plan_of (bind_runner s runner) = bind_runner_plan s runner
plan_of (set_model_override s model) = set_model_override_plan s model
plan_of (clear_model_override s) = clear_model_override_plan s
plan_of (set_reasoning_effort s effort) = set_reasoning_effort_plan s effort
plan_of (clear_reasoning_effort s) = clear_reasoning_effort_plan s
plan_of (set_archived s archived) = set_archived_plan s archived
plan_of (set_external_id s id) = set_external_id_plan s id
plan_of (post_input s type_of text) = post_input_plan s type_of text
plan_of (send_message s text) = send_message_plan s text
plan_of (interrupt s) = interrupt_plan s
plan_of (compact s) = compact_plan s
plan_of (resolve_elicitation s e action) = resolve_elicitation_plan s e action
plan_of (list_files s) = list_files_plan s
plan_of (get_file s f) = get_file_plan s f
plan_of (delete_file s f) = delete_file_plan s f
plan_of (upload_file s filename nil_content) = upload_file_plan s filename nil_content
plan_of (download_file s f max_bytes) = download_file_plan s f max_bytes

-- The guard of `resolve`, before a request is built.
unfoldable pub send : Request → Err ⊎ Request
send r =
    if any is_dot_segment r.segments
    then inl (invalid_argument (codes "path segment would traverse the request path"))
    else inr r

unfoldable pub check : List Guard → Err ⊎ Request → Err ⊎ Request
check [] r = r
check ((missing, what) ∷ guards) r =
    let rest = check guards r in if missing then inl (invalid_argument what) else rest

unfoldable pub request_of : Operation → Err ⊎ Request
unfolding plan_of send check
request_of o = check (plan_of o).guards (send (plan_of o).request)
