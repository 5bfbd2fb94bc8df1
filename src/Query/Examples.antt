-- ===== src/Query/Examples.antt =====
-- A turn of two passes that produces a file, and one that fails after its first text.
use omnigent_go_sdk.Prelude.{◌≡◌, false, none, some, List, [], ◌∷◌}
use omnigent_go_sdk.Errors.{stream_interrupted}
use omnigent_go_sdk.Sequence.{Step, value, failure}
use omnigent_go_sdk.Block.{Block, BlockContext, text_done, file_block, response_end}
use omnigent_go_sdk.Query.{query}
use omnigent_go_sdk.Query.Parts.{texts, files_of, first_error, text_unless}
use omnigent_go_sdk.Query.Answer.{query_answer}

abbrev at : BlockContext
at = record { agent = []; depth = 0; iteration = 0 }

abbrev broken_turn : List (Step Block)
broken_turn =
    value (some (text_done at (1 ∷ []) false))
    ∷ value (some (response_end at [] none))
    ∷ value (some (file_block at (2 ∷ []) none))
    ∷ value (some (text_done at (3 ∷ []) false))
    ∷ failure none stream_interrupted
    ∷ []

query_answer_example : query broken_turn ≡ (
  record {
    text = text_unless (first_error broken_turn) (texts broken_turn);
    files = files_of broken_turn;
  },
  first_error broken_turn,
)
query_answer_example = query_answer broken_turn
