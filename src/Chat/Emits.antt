-- ===== src/Chat/Emits.antt =====
-- What every side effect of an event keeps: a property of the tracker and of what the caller was handed
-- that is kept when a step is handed over.
use omnigent_go_sdk.Prelude.{
  ◌⊎◌, inl, inr, Bool, not, ◌||◌, ◌&&◌, List, Option, none, some, if_intro, if◌then◌else◌, is_empty,
  length, leb, ltb,
}
use omnigent_go_sdk.Prelude.Text.{Text, same, codes}
use omnigent_go_sdk.Prelude.Maps.{member, add}
use omnigent_go_sdk.Errors.{Err, invalid_argument, tool_call_budget}
use omnigent_go_sdk.Wire.{
  Fields, ResponseObject, ElicitationRequest, item_string, Event, response_created, queued,
  in_progress, response_completed, response_failed, incomplete, response_cancelled,
  reasoning_started, retry, error_event, output_file_done, elicitation_request, output_item_done,
}
use omnigent_go_sdk.Sequence.{Step, failure, Consumer}
use omnigent_go_sdk.Turn.{TurnTracker}
use omnigent_go_sdk.Tool.{ToolCallInfo, run_tool_of}
use omnigent_go_sdk.Chat.{
  HookCall, HookOutcome, unset, completed, panicked, on_response_start, on_response_end,
  on_reasoning_start, on_retry, on_server_error, on_file_output, on_tool_call_start,
  on_tool_call_end, Decision, undecided, decided, broken_off, hooked, output_posted, tool_run,
  verdict_posted, EventAccepted, World, TurnRun, tool_budget, emit, report, done, fire_outcome,
  fire, announce_response, end_response,
}
use omnigent_go_sdk.Chat.Sides.{
  after_post, post_output, run_tool, dispatch, awaits_client, info_of, observe_call, observe_item,
  or_empty, elicitation_target, elicitation_ctx_of, accepts, after_decision, report_error,
  post_verdict, resolve_elicitation, act,
}

-- A property of the caller's loop, of what it was handed, of whether it stopped, and of the tracker.
abbrev pub Outward : Type 1
Outward = Consumer Event → List (Step Event) → Bool → TurnTracker → Type 0

abbrev pub Shows : Outward → TurnRun → Type 0
Shows R run = R run.yield run.out run.stopped run.tracker

module _ (R : Outward)
    (emitted : (run : TurnRun) (step : Step Event) → Shows R run → Shows R (emit run step)) where
  abbrev Civil : TurnRun → Type 0
  Civil = Shows R

  pub reported : (run : TurnRun) (err : Err) → Civil run → Civil (report run err)
  unfolding report
  reported run err = emitted run (failure none err)

  reported_error : (run : TurnRun) (o : Option Err) → Civil run → Civil (report_error run o)
  reported_error run none h = h
  reported_error run (some err) h = reported run err h

  fired :
      (run : TurnRun) (call : HookCall) (o : HookOutcome)
      → Civil run
      → Civil (fire_outcome run call o)
  unfolding fire_outcome done
  fired run call unset h = h
  fired run call completed h = h
  fired run call (panicked reason) h = reported (done run (hooked call)) _ h

  after_post-Shows :
      (run : TurnRun) (answer : Err ⊎ EventAccepted) (o : Option Err)
      → Civil run
      → Civil (after_post run answer o)
  unfolding after_post
  after_post-Shows run (inl err) o h = reported run err h
  after_post-Shows run (inr accepted) none h =
      if_intro Civil accepted.denied (λ _. reported run _ h) (λ _. h)
  after_post-Shows run (inr accepted) (some err) h =
      if_intro Civil accepted.denied (λ _. reported run _ h) (λ _. reported run err h)

  after_decision-Shows : (run : TurnRun) (d : Decision) → Civil run → Civil (after_decision run d)
  unfolding after_decision
  after_decision-Shows run undecided h = h
  after_decision-Shows run (decided b) h = h
  after_decision-Shows run (broken_off reason) h = reported run _ h

  module _ (world : World) where
    fire-Shows : (run : TurnRun) (call : HookCall) → Civil run → Civil (fire world run call)
    unfolding fire
    fire-Shows run call h = fired run call (world.hooks run.effects call) h

    announce-Shows :
        (run : TurnRun) (r : ResponseObject) → Civil run → Civil (announce_response world run r)
    unfolding announce_response
    announce-Shows run r h =
        if_intro Civil (is_empty r.id || member r.id run.announced) (λ _. h)
          (λ _.
            fire-Shows (record run { announced = add r.id run.announced })
              (on_response_start r.id r.model) h)

    post_output-Shows :
        (run : TurnRun) (call_id output : Text) (o : Option Err)
        → Civil run
        → Civil (post_output world run call_id output o)
    unfolding post_output done
    post_output-Shows run call_id output o h =
        if_intro Civil (is_empty world.session_id)
          (λ _. after_post-Shows run (inl (invalid_argument (codes "sessionID is required"))) o h)
          (λ _.
            after_post-Shows (done run (output_posted world.session_id call_id output))
              (world.accepts_output run.effects call_id output) o h)

    dispatch-Shows :
        (run : TurnRun) (info : ToolCallInfo) → Civil run → Civil (dispatch world run info)
    unfolding dispatch run_tool done
    dispatch-Shows run info h =
        let limit = tool_budget world.max_tool_calls in
        if_intro Civil (member info.call_id run.dispatched) (λ _. reported run _ h)
          (λ _.
            if_intro Civil (ltb 0 limit && leb limit (length run.dispatched))
              (λ _. reported run (tool_call_budget limit) h)
              (λ _.
                let (output, run_err) = run_tool_of world.tools (length run.effects) info in
                let call = on_tool_call_end info.name info.call_id output run_err in
                let marked : TurnRun = record run {
                  dispatched = add info.call_id run.dispatched;
                } in
                let ran : TurnRun = done marked (tool_run info) in
                post_output-Shows (fire world ran call) info.call_id output run_err
                  (fire-Shows ran call h)))

    observe_item-Shows :
        (run : TurnRun) (item : Fields) → Civil run → Civil (observe_item world run item)
    unfolding observe_item observe_call
    observe_item-Shows run item h =
        let executed_by = if awaits_client item then codes "client" else codes "server" in
        let call =
          on_tool_call_start (info_of world item) (item_string item (codes "agent_name"))
            executed_by in
        let told = fire-Shows run call h in
        if_intro Civil (not (same (item_string item (codes "type")) (codes "function_call")))
          (λ _. h)
          (λ _.
            if_intro Civil
              (is_empty (info_of world item).call_id || is_empty (info_of world item).name) (λ _. h)
              (λ _.
                if_intro Civil (awaits_client item)
                  (λ _. dispatch-Shows (fire world run call) (info_of world item) told)
                  (λ _. told)))

    resolve-Shows :
        (run : TurnRun) (e : ElicitationRequest)
        → Civil run
        → Civil (resolve_elicitation world run e)
    unfolding resolve_elicitation post_verdict done
    resolve-Shows run e h =
        let ctx = elicitation_ctx_of world.session_id run.response_id e in
        let d = world.on_elicitation run.effects ctx in
        let u : TurnRun = after_decision run d in
        let h' = after_decision-Shows run d h in
        let target = elicitation_target world.session_id e in
        if_intro Civil (is_empty target || is_empty e.elicitation_id) (λ _. reported u _ h')
          (λ _. reported_error (done u (verdict_posted target e.elicitation_id (accepts d))) _ h')

    end-Shows : (run : TurnRun) (r : ResponseObject) → Civil run → Civil (end_response world run r)
    unfolding end_response
    end-Shows run r h =
        fire-Shows (announce_response world run r) (on_response_end r.id r.status)
          (announce-Shows run r h)

    pub act-Shows : (run : TurnRun) (e : Event) → Civil run → Civil (act world run e)
    unfolding act
    act-Shows run (response_created r) h = announce-Shows run r h
    act-Shows run (in_progress r) h = announce-Shows run r h
    act-Shows run (queued r) h = announce-Shows run r h
    act-Shows run reasoning_started h = fire-Shows run (on_reasoning_start run.response_id) h
    act-Shows run (retry source attempt max_attempts _) h =
        fire-Shows run (on_retry source attempt max_attempts) h
    act-Shows run (error_event source detail) h =
        fire-Shows run (on_server_error detail.message source detail.code) h
    act-Shows run (output_file_done file_id filename) h =
        fire-Shows run (on_file_output file_id (or_empty filename)) h
    act-Shows run (elicitation_request e) h = resolve-Shows run e h
    act-Shows run (output_item_done item) h = observe_item-Shows run item h
    act-Shows run (response_completed r) h = end-Shows run r h
    act-Shows run (response_cancelled r) h = end-Shows run r h
    act-Shows run (incomplete r) h = end-Shows run r h
    act-Shows run (response_failed r) h = end-Shows run r h
    act-Shows run _ h = h
