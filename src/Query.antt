-- ===== src/Query.antt =====
-- query.go: one prompt answered as a whole (`Query`). The reads of a QueryStream are not modelled.
pub mod Parts
pub mod Answer
mod Examples
use omnigent_go_sdk.Prelude.{List, [], ◌∷◌, ◌++◌, Option, none, some}
use omnigent_go_sdk.Prelude.Text.{Text}
use omnigent_go_sdk.Errors.{Err}
use omnigent_go_sdk.Sequence.{Step, value, failure}
use omnigent_go_sdk.Block.{Block, text_done, file_block}
use omnigent_go_sdk.Transform.{pipe, skip_intermediate_ends, merge_text_across_iterations}

pub record QueryResult : Type 0 where
  pub text : Text
  pub files : List Block

-- The blocks of `queryBlocks` for the blocks of the stream.
unfoldable pub query_blocks : List (Step Block) → List (Step Block)
unfolding pipe skip_intermediate_ends merge_text_across_iterations
query_blocks blocks = pipe blocks (skip_intermediate_ends ∷ merge_text_across_iterations ∷ [])

-- The loop of `Query`: the text is set at the end only, so that an error comes with the files so far
-- and no text.
unfoldable pub query_loop : Text → List Block → List (Step Block) → QueryResult × Option Err
query_loop answer files [] = (record { text = answer; files = files }, none)
query_loop answer files (failure _ err ∷ steps) = (record { text = []; files = files }, some err)
query_loop answer files (value (some (text_done _ full _)) ∷ steps) =
    query_loop (answer ++ full) files steps
query_loop answer files (value (some (file_block c file_id filename)) ∷ steps) =
    query_loop answer (files ++ file_block c file_id filename ∷ []) steps
query_loop answer files (value _ ∷ steps) = query_loop answer files steps

unfoldable pub query : List (Step Block) → QueryResult × Option Err
unfolding query_blocks query_loop
query blocks = query_loop [] [] (query_blocks blocks)
