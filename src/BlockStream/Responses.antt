-- ===== src/BlockStream/Responses.antt =====
-- Which response is speaking, and how a response ends.
use omnigent_go_sdk.Prelude.{
  ℕ, ◌+◌, true, false, ◌||◌, [], ◌∷◌, Option, none, some, if◌then◌else◌, is_empty,
}
use omnigent_go_sdk.Prelude.Text.{Text, count_rune}
use omnigent_go_sdk.Prelude.Maps.{TextMap, lookup, insert, erase, member, add}
use omnigent_go_sdk.Wire.{ResponseObject}
use omnigent_go_sdk.Block.{response_start, response_end}
use omnigent_go_sdk.BlockStream.State.{BlockState, put}
use omnigent_go_sdk.BlockStream.Text.{close_text}
use omnigent_go_sdk.BlockStream.Reasoning.{close_reasoning}

unfoldable pub announce_response : BlockState → ResponseObject → BlockState
announce_response s response =
    let s' = record s { started_responses = add response.id s.started_responses } in
    if is_empty response.id || member response.id s.started_responses
    then s
    else put s' (response_start s'.ctx response.model response.id)

-- The one live response's model and its depth, or nobody's.
unfoldable pub attribution : TextMap Text → Text × ℕ
attribution ((id, model) ∷ []) = (model, count_rune 46 model)
attribution _ = ([], 0)

unfoldable pub recompute_attribution : BlockState → BlockState
unfolding attribution
recompute_attribution s =
    let (agent, depth) = attribution s.live_responses in
    record s { ctx = record s.ctx { agent = agent; depth = depth } }

-- A re-announcement with no model keeps a name that is known.
unfoldable pub name_live : Text → Text → TextMap Text → TextMap Text
name_live id model live = elim (lookup id live) [
  | none ↦ insert id model live
  | some known ↦ if is_empty model then live else insert id model live
]

unfoldable pub start_response : BlockState → ResponseObject → BlockState
unfolding name_live recompute_attribution announce_response
start_response s response =
    let speaking = record s {
      live_responses = name_live response.id response.model s.live_responses;
      ended_response = false;
    } in
    if is_empty response.id then s else announce_response (recompute_attribution speaking) response

-- s.ctx.Iteration++
abbrev next_iteration : BlockState → BlockState
next_iteration s = record s { ctx = record s.ctx { iteration = s.ctx.iteration + 1 } }

unfoldable pub retire : BlockState → Option ResponseObject → BlockState
retire s none = s
retire s (some response) = record s { live_responses = erase response.id s.live_responses }

unfoldable pub end_response : BlockState → Text → Option ResponseObject → BlockState
unfolding retire recompute_attribution
end_response s status response =
    let closed = close_reasoning (close_text s) in
    let shown = put closed (response_end closed.ctx status response) in
    let credited = recompute_attribution (retire shown response) in
    next_iteration (record credited { ended_response = true })
