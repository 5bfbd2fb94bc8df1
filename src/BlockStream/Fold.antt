-- ===== src/BlockStream/Fold.antt =====
-- The fold of events, and the sequence of blocks that it yields.
use omnigent_go_sdk.Prelude.{ℕ, true, false, List, [], ◌∷◌, none, some, if◌then◌else◌}
use omnigent_go_sdk.Prelude.Int.{ℤ, positive_or}
use omnigent_go_sdk.Wire.{
  Event, response_created, queued, in_progress, response_completed, response_failed, incomplete,
  response_cancelled, reasoning_started, reasoning_text_delta, reasoning_summary_text_delta,
  output_text_delta, output_item_done, compaction_in_progress, retry, error_event, output_file_done,
}
use omnigent_go_sdk.Sequence.{Step, value, failure, Consumer}
use omnigent_go_sdk.Block.{Block, compaction_block, retry_block, error_block, file_block}
use omnigent_go_sdk.BlockStream.State.{BlockState, start, emit, put}
use omnigent_go_sdk.BlockStream.Text.{close_text}
use omnigent_go_sdk.BlockStream.Reasoning.{
  begin_reasoning, append_reasoning, close_reasoning, append_text,
}
use omnigent_go_sdk.BlockStream.Responses.{announce_response, start_response, end_response}
use omnigent_go_sdk.BlockStream.Items.{Codec}
use omnigent_go_sdk.BlockStream.Calls.{fold_item}

abbrev pub default_text_flush_threshold : ℕ
default_text_flush_threshold = 30

unfoldable pub fold : Codec → BlockState → Event → BlockState
fold codec s (response_created r) = start_response s r
fold codec s (queued r) = announce_response s r
fold codec s (in_progress r) = start_response s r
fold codec s reasoning_started = begin_reasoning s
fold codec s (reasoning_text_delta delta) = append_reasoning s delta false
fold codec s (reasoning_summary_text_delta delta) = append_reasoning s delta true
fold codec s (output_text_delta delta) = append_text s delta
fold codec s (output_item_done item) = fold_item codec s item
fold codec s compaction_in_progress = put s (compaction_block s.ctx)
fold codec s (retry source attempt max_attempts delay) =
    put s (retry_block s.ctx source attempt max_attempts delay)
fold codec s (error_event source detail) =
    put s (error_block s.ctx detail.message source detail.code)
fold codec s (output_file_done file_id filename) = put s (file_block s.ctx file_id filename)
fold codec s (response_completed r) = end_response s r.status (some r)
fold codec s (response_failed r) = end_response s r.status (some r)
fold codec s (incomplete r) = end_response s r.status (some r)
fold codec s (response_cancelled r) = end_response s r.status (some r)
fold codec s _ = s

-- Whatever was accumulated is flushed, unless the response speaking has ended.
unfoldable pub salvage : BlockState → BlockState
salvage s = if s.ended_response then s else close_reasoning (close_text s)

-- The loop of `Blocks` over the steps of the event sequence.
unfoldable pub fold_all : Codec → BlockState → List (Step Event) → BlockState
unfolding salvage
fold_all codec s [] = salvage s
fold_all codec s (failure _ err ∷ steps) = emit (salvage s) (failure none err)
fold_all codec s (value none ∷ steps) = fold_all codec s steps
fold_all codec s (value (some event) ∷ steps) =
    let s' = fold codec s event in
    let rest = fold_all codec s' steps in if s'.stopped then s' else rest

-- The final state of the fold; its `out` is what the caller's loop was handed. The threshold is
-- the field of BlockStream.
unfoldable pub blocks : Codec → ℤ → Consumer Block → List (Step Event) → BlockState
unfolding fold_all
blocks codec threshold yield steps =
    fold_all codec (start (positive_or default_text_flush_threshold threshold) yield) steps
