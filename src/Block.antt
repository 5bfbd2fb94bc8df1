-- ===== src/Block.antt =====
-- block.go: the pieces that a caller draws. The timestamp of a block's context is the
-- clock's and is left out.
use omnigent_go_sdk.Prelude.{ℕ, Bool, Option, List}
use omnigent_go_sdk.Prelude.Text.{Text}
use omnigent_go_sdk.Prelude.Int.{ℤ}
use omnigent_go_sdk.Wire.{Fields, ResponseObject}

pub record BlockContext : Type 0 where
  pub agent : Text
  pub depth : ℕ
  pub iteration : ℕ

pub record ToolExecution : Type 0 where
  pub name : Text
  pub arguments : Option Fields
  pub args_summary : Text
  pub call_id : Text
  pub agent_name : Text
  pub executed_by : Text
  pub output : Option Text

pub record ToolResult : Type 0 where
  pub name : Text
  pub call_id : Text
  pub agent_name : Text
  pub output : Text
  pub arguments : Option Fields
  pub args_summary : Text

-- The variants of the interface, each with its context. The delay of a retry is the wire's number
-- of seconds.
pub data Block : Type 0 where
  response_start : BlockContext → (model response_id : Text) → Block
  tool_group : BlockContext → List ToolExecution → Block
  tool_result : BlockContext → ToolResult → Block
  native_tool : BlockContext → (tool_type label : Text) → Fields → Block
  text_chunk : BlockContext → (text : Text) → Block
  text_done : BlockContext → (full_text : Text) → (has_code_blocks : Bool) → Block
  reasoning_start : BlockContext → Block
  reasoning_chunk : BlockContext → (text : Text) → Block
  reasoning_block : BlockContext → (reasoning_text summary_text : Text) → Block
  error_block : BlockContext → (message source code : Text) → Block
  retry_block : BlockContext → (source : Text) (attempt max_attempts : ℤ) (delay : Text) → Block
  compaction_block : BlockContext → Block
  file_block : BlockContext → (file_id : Text) → Option Text → Block
  response_end : BlockContext → (status : Text) → Option ResponseObject → Block

-- The method `Context`.
unfoldable pub context : Block → BlockContext
context (response_start c _ _) = c
context (tool_group c _) = c
context (tool_result c _) = c
context (native_tool c _ _ _) = c
context (text_chunk c _) = c
context (text_done c _ _) = c
context (reasoning_start c) = c
context (reasoning_chunk c _) = c
context (reasoning_block c _ _) = c
context (error_block c _ _ _) = c
context (retry_block c _ _ _ _) = c
context (compaction_block c) = c
context (file_block c _ _) = c
context (response_end c _ _) = c
