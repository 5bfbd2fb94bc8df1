-- ===== src/BlockStream/State.antt =====
-- The state of one fold (`blockState` of blockstream.go) and how it emits.
use omnigent_go_sdk.Prelude.{ℕ, ◌≡◌, Bool, false, not, ◌||◌, List, [], ◌∷◌, ◌++◌, arith, some}
use omnigent_go_sdk.Prelude.Text.{Text}
use omnigent_go_sdk.Prelude.Maps.{TextMap, TextSet}
use omnigent_go_sdk.Sequence.{Step, value, Consumer, handed}
use omnigent_go_sdk.Block.{BlockContext, ToolExecution, Block}

pub record BlockState : Type 0 where
  pub threshold : ℕ
  pub yield : Consumer Block
  -- what `yield` was handed, in order
  pub out : List (Step Block)
  pub stopped : Bool
  pub ctx : BlockContext
  pub started_responses : TextSet
  -- the model of each response that is speaking
  pub live_responses : TextMap Text
  pub in_text : Text
  pub full_text : Text
  pub in_reasoning : Bool
  pub reasoning : Text
  pub reasoning_text : Text
  pub summary_text : Text
  pub ended_response : Bool
  pub reasoning_chunked : Bool
  pub executions : TextMap ToolExecution
  pub seen_calls : TextSet
  pub seen_results : TextSet

-- The state that `Blocks` starts a sequence with.
unfoldable pub start : ℕ → Consumer Block → BlockState
start threshold yield = record {
  threshold = threshold;
  yield = yield;
  out = [];
  stopped = false;
  ctx = record { agent = []; depth = 0; iteration = 0 };
  started_responses = [];
  live_responses = [];
  in_text = [];
  full_text = [];
  in_reasoning = false;
  reasoning = [];
  reasoning_text = [];
  summary_text = [];
  ended_response = false;
  reasoning_chunked = false;
  executions = [];
  seen_calls = [];
  seen_results = [];
}

-- A caller that stopped is handed nothing more; another is asked to go on.
unfoldable pub emit : BlockState → Step Block → BlockState
emit s step =
    let out = handed s.stopped s.out step in
    record s { out = out; stopped = s.stopped || not (s.yield out) }

unfoldable pub put : BlockState → Block → BlockState
unfolding emit
put s block = emit s (value (some block))

pub out-put :
    (s : BlockState) (b : Block) → s.stopped ≡ false → (put s b).out ≡ s.out ++ value (some b) ∷ []
unfolding put
out-put s b going = ground (arith, going)
