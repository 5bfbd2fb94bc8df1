-- ===== src/BlockStream/Examples.antt =====
-- One answer with a tool call, streamed in small chunks.
use omnigent_go_sdk.Prelude.{
  ◌≤◌, ◌<◌, length, arith, ◌≡◌, refl, true, false, none, some, List, [], ◌∷◌, ◌++◌,
}
use omnigent_go_sdk.Prelude.Text.{codes}
use omnigent_go_sdk.Prelude.Int.{pos}
use omnigent_go_sdk.Wire.{
  str, Fields, end, field, ResponseObject, Event, response_created, output_text_delta,
  output_item_done, response_completed,
}
use omnigent_go_sdk.Sequence.{Step, value, Consumer, Offered}
use omnigent_go_sdk.Block.{Block}
use omnigent_go_sdk.BlockStream.State.{BlockState, start}
use omnigent_go_sdk.BlockStream.Text.{flush_text_chunks}
use omnigent_go_sdk.BlockStream.Flushed.{flush_text_chunks_done}
use omnigent_go_sdk.BlockStream.Items.{Codec}
use omnigent_go_sdk.BlockStream.Fold.{blocks}
use omnigent_go_sdk.BlockStream.Streamed.{chunks, deltas, streamed_text}
use omnigent_go_sdk.BlockStream.Polite.{stopped_caller}
use omnigent_go_sdk.BlockStream.Reports.{call_reports, result_reports}
use omnigent_go_sdk.BlockStream.Reported.{reported_once}

-- A codec that reads no arguments.
abbrev plain : Codec
plain = record {
  unmarshal = λ _. none;
  marshal = λ _. none;
  sprint = λ _. [];
  sprint_map = λ _. [];
}

abbrev keen : Consumer Block
keen _ = true

abbrev hasty : Consumer Block
hasty _ = false

abbrev the_response : ResponseObject
the_response = record { id = 5 ∷ []; model = 6 ∷ []; status = 7 ∷ []; error = none }

abbrev call : Fields
call =
    field (codes "type") (str (codes "function_call"))
      (field (codes "call_id") (str (1 ∷ [])) (field (codes "name") (str (2 ∷ [])) end))

-- The call is delivered twice.
abbrev script : List (Step Event)
script =
    value (some (response_created the_response))
    ∷ value (some (output_text_delta (104 ∷ 105 ∷ 32 ∷ 121 ∷ 111 ∷ [])))
    ∷ value (some (output_item_done call))
    ∷ value (some (output_item_done call))
    ∷ value (some (output_text_delta (117 ∷ [])))
    ∷ value (some (response_completed the_response))
    ∷ []

streamed_text_example :
    (chunks (blocks plain (pos 3) keen script).out ++ (blocks plain (pos 3) keen script).in_text
      ≡ deltas script)
    × ((blocks plain (pos 3) keen script).ended_response ≡ false
        → (blocks plain (pos 3) keen script).in_text ≡ [])
streamed_text_example = streamed_text plain (pos 3) keen script (λ _. refl)

stopped_caller_example :
    Offered hasty
      (blocks plain (pos 3) hasty script).out
      (blocks plain (pos 3) hasty script).stopped
stopped_caller_example = stopped_caller plain (pos 3) hasty script

reported_once_example :
    (call_reports (1 ∷ []) (blocks plain (pos 3) keen script).out ≤ 1)
    × (result_reports (1 ∷ []) (blocks plain (pos 3) keen script).out ≤ 1)
reported_once_example = reported_once plain (pos 3) keen script (1 ∷ [])

abbrev filled : BlockState
filled = record (start 3 keen) { in_text = 104 ∷ 105 ∷ 32 ∷ 121 ∷ 111 ∷ [] }

filled_threshold : 0 < filled.threshold
unfolding start
filled_threshold = omega arith

flush_text_chunks_done_example : length (flush_text_chunks filled).in_text < filled.threshold
flush_text_chunks_done_example = flush_text_chunks_done filled filled_threshold
