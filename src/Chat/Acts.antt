-- ===== src/Chat/Acts.antt =====
-- chat.go: what one event calls for, against the rules of Chat/Rules.
use omnigent_go_sdk.Prelude.{
  ◌≡◌, refl, sym, ◌∙◌, subst, ◌⊎◌, inl, inr, Bool, true, false, not, ◌||◌, ◌&&◌, List, Option, none,
  some, if_intro, if◌then◌else◌, is_empty, length, leb, ltb, arith, true≢false,
}
use omnigent_go_sdk.Prelude.Text.{Text, same, codes}
use omnigent_go_sdk.Prelude.Maps.{member, add}
use omnigent_go_sdk.Errors.{Err}
use omnigent_go_sdk.Wire.{
  Fields, ResponseObject, ElicitationRequest, Event, item_string, response_created, queued,
  in_progress, response_completed, response_failed, incomplete, response_cancelled,
  reasoning_started, retry, error_event, output_file_done, elicitation_request, output_item_done,
}
use omnigent_go_sdk.Tool.{ToolCallInfo, run_tool_of}
use omnigent_go_sdk.Chat.{
  on_response_start, on_response_end, on_reasoning_start, on_retry, on_server_error, on_file_output,
  on_tool_call_start, on_tool_call_end, Decision, undecided, decided, broken_off, Effect, tool_run,
  output_posted, verdict_posted, ElicitationCtx, EventAccepted, World, TurnRun, tool_budget, report,
  done, fire, announce_response, end_response,
}
use omnigent_go_sdk.Chat.Sides.{
  after_post, post_output, run_tool, dispatch, awaits_client, info_of, observe_call, observe_item,
  or_empty, elicitation_target, elicitation_ctx_of, accepts, after_decision, report_error,
  post_verdict, resolve_elicitation, act,
}
use omnigent_go_sdk.Chat.Rules.{
  count-snoc, is_run, is_run_of, is_post_of, Allowed, decline, grant, next,
}
use omnigent_go_sdk.Chat.Kept.{Calm, fire-Calm, Pending, fire_outcome-Pending, started, paid}

module _ (world : World) (named : is_empty world.session_id ≡ false) where
  report_error-Calm :
      (run : TurnRun) (o : Option Err) → Calm world run → Calm world (report_error run o)
  unfolding report
  report_error-Calm run none h = h
  report_error-Calm run (some err) h = h

  after_post-Calm :
      (run : TurnRun) (answer : Err ⊎ EventAccepted) (run_err : Option Err)
      → Calm world run
      → Calm world (after_post run answer run_err)
  unfolding after_post report
  after_post-Calm run (inl err) run_err h = h
  after_post-Calm run (inr accepted) none h =
      if_intro (Calm world) accepted.denied (λ _. h) (λ _. h)
  after_post-Calm run (inr accepted) (some err) h =
      if_intro (Calm world) accepted.denied (λ _. h) (λ _. h)

  post_output-Calm :
      (run : TurnRun) (info : ToolCallInfo) (output : Text) (run_err : Option Err)
      → Pending world info output run
      → Calm world (post_output world run info.call_id output run_err)
  unfolding post_output done
  post_output-Calm run info output run_err h =
      if_intro (Calm world) (is_empty world.session_id) (λ e. absurd (true≢false (sym e ∙ named)))
        (λ _.
          after_post-Calm (done run (output_posted world.session_id info.call_id output))
            (world.accepts_output run.effects info.call_id output) run_err
            (paid world info output run.effects run.dispatched h))

  dispatch-Calm :
      (run : TurnRun) (info : ToolCallInfo) → Calm world run → Calm world (dispatch world run info)
  unfolding dispatch run_tool report done fire
  dispatch-Calm run info h =
      let limit = tool_budget world.max_tool_calls in
      if_intro (Calm world) (member info.call_id run.dispatched) (λ _. h)
        (λ fresh.
          if_intro (Calm world) (ltb 0 limit && leb limit (length run.dispatched)) (λ _. h)
            (λ within.
              let (output, run_err) = run_tool_of world.tools (length run.effects) info in
              let call = on_tool_call_end info.name info.call_id output run_err in
              let marked : TurnRun = record run { dispatched = add info.call_id run.dispatched } in
              let ran : TurnRun = done marked (tool_run info) in
              post_output-Calm (fire world ran call) info output run_err (
                fire_outcome-Pending world info output ran call (world.hooks ran.effects call)
                  (started world run info fresh (λ capped. ground (arith, within, capped)) h))))

  observe_item-Calm :
      (run : TurnRun) (item : Fields) → Calm world run → Calm world (observe_item world run item)
  unfolding observe_item observe_call
  observe_item-Calm run item h =
      let executed_by = if awaits_client item then codes "client" else codes "server" in
      let call =
        on_tool_call_start (info_of world item) (item_string item (codes "agent_name"))
          executed_by in
      let told = fire-Calm world run call h in
      if_intro (Calm world) (not (same (item_string item (codes "type")) (codes "function_call")))
        (λ _. h)
        (λ _.
          if_intro (Calm world)
            (is_empty (info_of world item).call_id || is_empty (info_of world item).name) (λ _. h)
            (λ _.
              if_intro (Calm world) (awaits_client item)
                (λ _. dispatch-Calm (fire world run call) (info_of world item) told)
                (λ _. fire-Calm world run _ h)))

  after_decision-Calm :
      (run : TurnRun) (d : Decision) → Calm world run → Calm world (after_decision run d)
  unfolding after_decision report
  after_decision-Calm run undecided h = h
  after_decision-Calm run (decided b) h = h
  after_decision-Calm run (broken_off reason) h = h

  announce-Calm :
      (run : TurnRun) (r : ResponseObject)
      → Calm world run
      → Calm world (announce_response world run r)
  unfolding announce_response
  announce-Calm run r h =
      if_intro (Calm world) (is_empty r.id || member r.id run.announced) (λ _. h)
        (λ _.
          fire-Calm world (record run { announced = add r.id run.announced })
            (on_response_start r.id r.model) h)

  end-Calm :
      (run : TurnRun) (r : ResponseObject) → Calm world run → Calm world (end_response world run r)
  unfolding end_response
  end-Calm run r h =
      fire-Calm world (announce_response world run r) (on_response_end r.id r.status)
        (announce-Calm run r h)

  -- A verdict may be posted where it is a decline or has just been granted.
  verdict-Calm :
      (run : TurnRun) (session_id elicitation_id : Text) (accept : Bool)
      → Allowed world run.effects (verdict_posted session_id elicitation_id accept)
      → Calm world run
      → Calm world (post_verdict world run session_id elicitation_id accept)
  unfolding post_verdict report done
  verdict-Calm run session_id elicitation_id accept a h =
      let e : Effect = verdict_posted session_id elicitation_id accept in
      if_intro (Calm world) (is_empty session_id || is_empty elicitation_id) (λ _. h)
        (λ _.
          report_error-Calm (done run e)
            (world.accepts_verdict run.effects session_id elicitation_id accept)
            (record {
              lawful = next run.effects e h.lawful a;
              ran = λ k. count-snoc (is_run_of k) run.effects e ∙ omega (arith, h.ran k);
              total = omega (arith, count-snoc is_run run.effects e, h.total);
              answered = λ k. omega (
                arith,
                h.answered k,
                count-snoc (is_run_of k) run.effects e,
                count-snoc (is_post_of k) run.effects e,
              );
            }))

  verdict-Allowed :
      (past : List Effect) (ctx : ElicitationCtx) (d : Decision)
      → world.on_elicitation past ctx ≡ d
      → Allowed world past (verdict_posted ctx.session_id ctx.elicitation_id (accepts d))
  verdict-Allowed past ctx undecided h = decline ctx.session_id ctx.elicitation_id
  verdict-Allowed past ctx (decided false) h = decline ctx.session_id ctx.elicitation_id
  verdict-Allowed past ctx (decided true) h = grant ctx h
  verdict-Allowed past ctx (broken_off reason) h = decline ctx.session_id ctx.elicitation_id

  after_decision-effects :
      (run : TurnRun) (d : Decision) → (after_decision run d).effects ≡ run.effects
  unfolding after_decision report
  after_decision-effects run undecided = refl
  after_decision-effects run (decided b) = refl
  after_decision-effects run (broken_off reason) = refl

  resolve-Calm :
      (run : TurnRun) (e : ElicitationRequest)
      → Calm world run
      → Calm world (resolve_elicitation world run e)
  unfolding resolve_elicitation elicitation_ctx_of
  resolve-Calm run e h =
      let ctx : ElicitationCtx = elicitation_ctx_of world.session_id run.response_id e in
      let d = world.on_elicitation run.effects ctx in
      verdict-Calm (after_decision run d) (elicitation_target world.session_id e) e.elicitation_id
        (accepts d)
        (subst
          (λ (es : List Effect).
            Allowed world es (verdict_posted ctx.session_id ctx.elicitation_id (accepts d)))
          (sym (after_decision-effects run d)) (verdict-Allowed run.effects ctx d refl))
        (after_decision-Calm run d h)

  pub act-Calm : (run : TurnRun) (e : Event) → Calm world run → Calm world (act world run e)
  unfolding act
  act-Calm run (response_created r) h = announce-Calm run r h
  act-Calm run (in_progress r) h = announce-Calm run r h
  act-Calm run (queued r) h = announce-Calm run r h
  act-Calm run reasoning_started h = fire-Calm world run (on_reasoning_start run.response_id) h
  act-Calm run (retry source attempt max_attempts _) h =
      fire-Calm world run (on_retry source attempt max_attempts) h
  act-Calm run (error_event source detail) h =
      fire-Calm world run (on_server_error detail.message source detail.code) h
  act-Calm run (output_file_done file_id filename) h =
      fire-Calm world run (on_file_output file_id (or_empty filename)) h
  act-Calm run (elicitation_request e) h = resolve-Calm run e h
  act-Calm run (output_item_done item) h = observe_item-Calm run item h
  act-Calm run (response_completed r) h = end-Calm run r h
  act-Calm run (response_cancelled r) h = end-Calm run r h
  act-Calm run (incomplete r) h = end-Calm run r h
  act-Calm run (response_failed r) h = end-Calm run r h
  act-Calm run _ h = h
