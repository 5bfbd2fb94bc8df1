-- ===== src/BlockStream/Blind.antt =====
-- blockstream.go: what the tool calls keep of a property that only a chunk of text can change.
use omnigent_go_sdk.Prelude.{refl, Bool, true, false, ◌≡◌, List, Option, none, some, ◌++◌, if_intro}
use omnigent_go_sdk.Prelude.Text.{Text}
use omnigent_go_sdk.Prelude.Maps.{insert, member, add}
use omnigent_go_sdk.Sequence.{Step, Consumer}
use omnigent_go_sdk.Block.{Block, ToolExecution, text_chunk, tool_result}
use omnigent_go_sdk.BlockStream.State.{BlockState, put}
use omnigent_go_sdk.BlockStream.Text.{close_text}
use omnigent_go_sdk.BlockStream.Reasoning.{close_reasoning}
use omnigent_go_sdk.BlockStream.Calls.{show_call, know_call, keep_result, result_of, show_result}
use omnigent_go_sdk.BlockStream.Fold.{salvage}
use omnigent_go_sdk.BlockStream.Keeps.{
  is_prose, Property, At, close_text-keeps, close_reasoning-keeps,
}

abbrev pub is_chunk : Block → Bool
is_chunk (text_chunk _ _) = true
is_chunk _ = false

prose_no_chunk : (b : Block) → is_prose b ≡ true → is_chunk b ≡ false
prose_no_chunk (text_chunk _ _) h = cc
prose_no_chunk b h = refl

-- A property that does not speak of the tool calls.
abbrev pub Blind : Type 1
Blind = Consumer Block → List (Step Block) → Bool → Text → Type 0

abbrev pub of_blind : Blind → Property
of_blind R v = R v.yield v.out v.stopped v.in_text

module _ (R : Blind)
    (quiet : (s : BlockState) (b : Block)
      → is_chunk b ≡ false
      → At (of_blind R) s
      → At (of_blind R) (put s b))
    (chunk : (s : BlockState) (c rest : Text)
      → s.in_text ≡ c ++ rest
      → At (of_blind R) s
      → At (of_blind R) (record (put s (text_chunk s.ctx c)) { in_text = rest })) where
  closed_text : (s : BlockState) → At (of_blind R) s → At (of_blind R) (close_text s)
  closed_text = close_text-keeps (of_blind R) (λ s b p. quiet s b (prose_no_chunk b p)) chunk

  pub closed_reasoning : (s : BlockState) → At (of_blind R) s → At (of_blind R) (close_reasoning s)
  closed_reasoning =
      close_reasoning-keeps (of_blind R) (λ s b p. quiet s b (prose_no_chunk b p)) chunk

  pub show_call-keeps :
      (s : BlockState) (call_id : Text) (x : ToolExecution)
      → At (of_blind R) s
      → At (of_blind R) (show_call s call_id x)
  unfolding show_call
  show_call-keeps s call_id x h =
      let seen : BlockState = record s { seen_calls = add call_id s.seen_calls } in
      if_intro (At (of_blind R)) (member call_id s.seen_calls) (λ _. h)
        (λ _.
          quiet (close_text (close_reasoning seen)) _ refl
            (closed_text (close_reasoning seen) (closed_reasoning seen h)))

  pub know_call-keeps :
      (s : BlockState) (call_id : Text) (fresh : ToolExecution) (known : Option ToolExecution)
      → At (of_blind R) s
      → At (of_blind R) (know_call s call_id fresh known)
  unfolding know_call
  know_call-keeps s call_id fresh (some prior) h = show_call-keeps s call_id prior h
  know_call-keeps s call_id fresh none h =
      show_call-keeps (record s { executions = insert call_id fresh s.executions }) call_id fresh h

  pub show_result-keeps :
      (s : BlockState) (call_id output : Text) (x : ToolExecution)
      → At (of_blind R) s
      → At (of_blind R) (show_result s call_id output x)
  unfolding show_result keep_result
  show_result-keeps s call_id output x h =
      quiet (keep_result s call_id output x) (tool_result s.ctx (result_of call_id output x)) refl h

  pub salvage-keeps : (s : BlockState) → At (of_blind R) s → At (of_blind R) (salvage s)
  unfolding salvage
  salvage-keeps s h =
      if_intro (At (of_blind R)) s.ended_response (λ _. h)
        (λ _. closed_reasoning (close_text s) (closed_text s h))
