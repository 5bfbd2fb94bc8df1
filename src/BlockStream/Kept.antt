-- ===== src/BlockStream/Kept.antt =====
-- What one event keeps: the rule of BlockStream/Keeps for the whole fold. The property may speak of
-- the text that the deltas carried so far.
use omnigent_go_sdk.Prelude.{
  ◌≡◌, refl, sym, subst, Bool, true, false, ◌||◌, [], ◌∷◌, ◌++◌, append-nil, some, if_intro,
  is_empty, arith,
}
use omnigent_go_sdk.Prelude.Text.{Text, codes, same}
use omnigent_go_sdk.Prelude.Maps.{lookup, member, add}
use omnigent_go_sdk.Wire.{
  Fields, ResponseObject, item_string, Event, response_created, queued, in_progress,
  response_completed, response_failed, incomplete, response_cancelled, reasoning_started,
  reasoning_text_delta, reasoning_summary_text_delta, output_text_delta, output_item_done,
  compaction_in_progress, retry, error_event, output_file_done,
}
use omnigent_go_sdk.Block.{
  Block, ToolExecution, compaction_block, retry_block, error_block, file_block, text_chunk,
  tool_group, tool_result,
}
use omnigent_go_sdk.BlockStream.State.{BlockState, put}
use omnigent_go_sdk.BlockStream.Text.{close_text}
use omnigent_go_sdk.BlockStream.Reasoning.{
  begin_reasoning, append_reasoning, close_reasoning, append_text,
}
use omnigent_go_sdk.BlockStream.Responses.{
  announce_response, recompute_attribution, start_response, retire, end_response,
}
use omnigent_go_sdk.BlockStream.Items.{Codec, output_text_from_content}
use omnigent_go_sdk.BlockStream.Calls.{
  know_call, fold_tool_call, fold_tool_result, fold_message, fold_native_tool, fold_item,
  new_execution, execution_of, show_result,
}
use omnigent_go_sdk.BlockStream.Fold.{fold}
use omnigent_go_sdk.BlockStream.Keeps.{
  is_prose, Property, At, close_text-keeps, begin_reasoning-keeps, append_reasoning-keeps,
  close_reasoning-keeps, flush_text_chunks-keeps,
}

-- The blocks that neither carry a piece of the answer nor report a tool call or its result.
abbrev pub is_plain : Block → Bool
is_plain (text_chunk _ _) = false
is_plain (tool_group _ _) = false
is_plain (tool_result _ _) = false
is_plain _ = true

-- What an event adds to the text of the answer.
abbrev pub delta_of : Event → Text
delta_of (output_text_delta delta) = delta
delta_of _ = []

prose_plain : (b : Block) → is_prose b ≡ true → is_plain b ≡ true
prose_plain (text_chunk _ _) h = cc
prose_plain (tool_group _ _) h = cc
prose_plain (tool_result _ _) h = cc
prose_plain b h = refl

or_false : (a b : Bool) → (a || b) ≡ false → b ≡ false
or_false a b h = ground arith

module _ (Q : Text → Property)
    (quiet : (t : Text) (s : BlockState) (b : Block)
      → is_plain b ≡ true
      → At (Q t) s
      → At (Q t) (put s b))
    (chunk : (t : Text) (s : BlockState) (c rest : Text)
      → s.in_text ≡ c ++ rest
      → At (Q t) s
      → At (Q t) (record (put s (text_chunk s.ctx c)) { in_text = rest }))
    (grow : (t : Text) (s : BlockState) (delta : Text)
      → At (Q t) s
      → At (Q (t ++ delta)) (record s { in_text = s.in_text ++ delta }))
    (call : (t : Text) (s : BlockState) (call_id : Text) (fresh : ToolExecution)
      → fresh.call_id ≡ call_id
      → At (Q t) s
      → At (Q t) (know_call s call_id fresh (lookup call_id s.executions)))
    (result : (t : Text) (s : BlockState) (item : Fields) (call_id output : Text)
      → member call_id s.seen_results ≡ false
      → At (Q t) s
      → At (Q t) (
          show_result s call_id output
            (execution_of item call_id (lookup call_id s.executions)))) where
  stay : (t : Text) (s : BlockState) → At (Q t) s → At (Q (t ++ [])) s
  stay t s h = subst (λ u. At (Q u) s) (sym (append-nil t)) h

  begun : (t : Text) (s : BlockState) → At (Q t) s → At (Q t) (begin_reasoning s)
  begun t = begin_reasoning-keeps (Q t) (λ s b p. quiet t s b (prose_plain b p)) (chunk t)

  reasoned :
      (t : Text) (s : BlockState) (delta : Text) (summary : Bool)
      → At (Q t) s
      → At (Q t) (append_reasoning s delta summary)
  reasoned t = append_reasoning-keeps (Q t) (λ s b p. quiet t s b (prose_plain b p)) (chunk t)

  closed_text : (t : Text) (s : BlockState) → At (Q t) s → At (Q t) (close_text s)
  closed_text t = close_text-keeps (Q t) (λ s b p. quiet t s b (prose_plain b p)) (chunk t)

  closed_reasoning : (t : Text) (s : BlockState) → At (Q t) s → At (Q t) (close_reasoning s)
  closed_reasoning t =
      close_reasoning-keeps (Q t) (λ s b p. quiet t s b (prose_plain b p)) (chunk t)

  announce_response-keeps :
      (t : Text) (s : BlockState) (r : ResponseObject)
      → At (Q t) s
      → At (Q t) (announce_response s r)
  unfolding announce_response
  announce_response-keeps t s r h =
      if_intro (At (Q t)) (is_empty r.id || member r.id s.started_responses) (λ _. h)
        (λ _. quiet t (record s { started_responses = add r.id s.started_responses }) _ refl h)

  start_response-keeps :
      (t : Text) (s : BlockState) (r : ResponseObject) → At (Q t) s → At (Q t) (start_response s r)
  unfolding start_response recompute_attribution
  start_response-keeps t s r h =
      if_intro (At (Q t)) (is_empty r.id) (λ _. h) (λ _. announce_response-keeps t _ r h)

  end_response-keeps :
      (t : Text) (s : BlockState) (status : Text) (r : ResponseObject)
      → At (Q t) s
      → At (Q t) (end_response s status (some r))
  unfolding end_response recompute_attribution retire
  end_response-keeps t s status r h =
      quiet t (close_reasoning (close_text s)) _ refl
        (closed_reasoning t (close_text s) (closed_text t s h))

  fold_message-keeps :
      (t : Text) (s : BlockState) (item : Fields) → At (Q t) s → At (Q t) (fold_message s item)
  unfolding fold_message
  fold_message-keeps t s item h =
      if_intro (At (Q t)) (is_empty (output_text_from_content item)) (λ _. closed_text t s h)
        (λ _. closed_text t (record s { full_text = output_text_from_content item }) h)

  fold_item-keeps :
      (codec : Codec) (t : Text) (s : BlockState) (item : Fields)
      → At (Q t) s
      → At (Q t) (fold_item codec s item)
  unfolding fold_item fold_tool_call fold_tool_result fold_native_tool
  fold_item-keeps codec t s item h =
      let kind : Text = item_string item (codes "type") in
      let call_id : Text = item_string item (codes "call_id") in
      if_intro (At (Q t)) (same kind (codes "function_call"))
        (λ _.
          if_intro (At (Q t)) (is_empty call_id) (λ _. h)
            (λ _.
              call t s call_id (new_execution codec item call_id) (unfold new_execution in refl) h))
        (λ _.
          if_intro (At (Q t)) (same kind (codes "function_call_output"))
            (λ _.
              if_intro (At (Q t)) (is_empty call_id || member call_id s.seen_results) (λ _. h)
                (λ fresh.
                  result t s item call_id (item_string item (codes "output")) (or_false _ _ fresh)
                    h))
            (λ _.
              if_intro (At (Q t)) (same kind (codes "message")) (λ _. fold_message-keeps t s item h)
                (λ _. if_intro (At (Q t)) (is_empty kind) (λ _. h) (λ _. quiet t s _ refl h))))

  append_text-keeps :
      (t : Text) (s : BlockState) (delta : Text)
      → At (Q t) s
      → At (Q (t ++ delta)) (append_text s delta)
  unfolding append_text
  append_text-keeps t s [] h = stay t s h
  append_text-keeps t s (r ∷ delta) h =
      flush_text_chunks-keeps (Q (t ++ r ∷ delta))
        (λ u b p. quiet (t ++ r ∷ delta) u b (prose_plain b p)) (chunk (t ++ r ∷ delta)) _
        (grow t (close_reasoning s) (r ∷ delta) (closed_reasoning t s h))

  -- An event adds its delta to the text, and keeps the property.
  pub fold-keeps :
      (codec : Codec) (t : Text) (s : BlockState) (e : Event)
      → At (Q t) s
      → At (Q (t ++ delta_of e)) (fold codec s e)
  unfolding fold
  fold-keeps codec t s (output_text_delta delta) h = append_text-keeps t s delta h
  fold-keeps codec t s (response_created r) h =
      stay t (start_response s r) (start_response-keeps t s r h)
  fold-keeps codec t s (queued r) h =
      stay t (announce_response s r) (announce_response-keeps t s r h)
  fold-keeps codec t s (in_progress r) h =
      stay t (start_response s r) (start_response-keeps t s r h)
  fold-keeps codec t s reasoning_started h = stay t (begin_reasoning s) (begun t s h)
  fold-keeps codec t s (reasoning_text_delta delta) h =
      stay t (append_reasoning s delta false) (reasoned t s delta false h)
  fold-keeps codec t s (reasoning_summary_text_delta delta) h =
      stay t (append_reasoning s delta true) (reasoned t s delta true h)
  fold-keeps codec t s (output_item_done item) h =
      stay t (fold_item codec s item) (fold_item-keeps codec t s item h)
  fold-keeps codec t s compaction_in_progress h =
      stay t (put s (compaction_block s.ctx)) (quiet t s _ refl h)
  fold-keeps codec t s (retry source attempt max_attempts delay) h =
      stay t (put s (retry_block s.ctx source attempt max_attempts delay)) (quiet t s _ refl h)
  fold-keeps codec t s (error_event source detail) h =
      stay t (put s (error_block s.ctx detail.message source detail.code)) (quiet t s _ refl h)
  fold-keeps codec t s (output_file_done file_id filename) h =
      stay t (put s (file_block s.ctx file_id filename)) (quiet t s _ refl h)
  fold-keeps codec t s (response_completed r) h =
      stay t (end_response s r.status (some r)) (end_response-keeps t s r.status r h)
  fold-keeps codec t s (response_failed r) h =
      stay t (end_response s r.status (some r)) (end_response-keeps t s r.status r h)
  fold-keeps codec t s (incomplete r) h =
      stay t (end_response s r.status (some r)) (end_response-keeps t s r.status r h)
  fold-keeps codec t s (response_cancelled r) h =
      stay t (end_response s r.status (some r)) (end_response-keeps t s r.status r h)
  fold-keeps codec t s _ h = stay t s h
