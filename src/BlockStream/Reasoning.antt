-- ===== src/BlockStream/Reasoning.antt =====
-- Reasoning: buffered, flushed by lines, and closed. And `appendText`, which closes it.
use omnigent_go_sdk.Prelude.{
  Bool, true, false, not, ◌&&◌, ◌||◌, [], ◌∷◌, ◌++◌, ◌==◌, if◌then◌else◌, is_empty,
}
use omnigent_go_sdk.Prelude.Text.{Text, trim_space}
use omnigent_go_sdk.Block.{reasoning_start, reasoning_chunk, reasoning_block}
use omnigent_go_sdk.BlockStream.State.{BlockState, put}
use omnigent_go_sdk.BlockStream.Text.{flush_text_chunks}

unfoldable pub begin_reasoning : BlockState → BlockState
begin_reasoning s =
    let s' = record s { in_reasoning = true; reasoning_chunked = false } in
    if s.in_reasoning then s else put s' (reasoning_start s'.ctx)

-- One complete line: a chunk, unless it is blank.
unfoldable pub flush_line : BlockState → Text → BlockState
flush_line s line =
    let s' = record s { reasoning_chunked = true } in
    if is_empty (trim_space line) then s else put s' (reasoning_chunk s'.ctx line)

-- The loop of `appendReasoning`: `line` is the buffer in front of the scan, and the rest is what
-- is not yet scanned.
unfoldable pub flush_lines : BlockState → Text → Text → BlockState
unfolding flush_line
flush_lines s line [] = record s { reasoning = line }
flush_lines s line (r ∷ rest) =
    let ended = flush_lines (flush_line s line) [] rest in
    let longer = flush_lines s (line ++ r ∷ []) rest in if r == 10 then ended else longer

unfoldable pub append_reasoning : BlockState → Text → Bool → BlockState
unfolding begin_reasoning flush_lines
append_reasoning s delta summary =
    let open_section = if s.in_reasoning then s else begin_reasoning s in
    let noted =
      if summary
      then record open_section { summary_text = open_section.summary_text ++ delta }
      else record open_section { reasoning_text = open_section.reasoning_text ++ delta } in
    if is_empty delta then s else flush_lines noted noted.reasoning delta

unfoldable pub flush_reasoning : BlockState → BlockState
flush_reasoning s =
    let rest = trim_space s.reasoning in
    let s' = record s { reasoning_chunked = true } in
    if is_empty rest then s else put s' (reasoning_chunk s'.ctx rest)

unfoldable pub report_reasoning : BlockState → BlockState
report_reasoning s =
    if not s.reasoning_chunked && (not (is_empty s.reasoning_text) || not (is_empty s.summary_text))
    then put s (reasoning_block s.ctx s.reasoning_text s.summary_text)
    else s

abbrev end_section : BlockState → BlockState
end_section s = record s {
  in_reasoning = false;
  reasoning = [];
  reasoning_text = [];
  summary_text = [];
  reasoning_chunked = false;
}

unfoldable pub close_reasoning : BlockState → BlockState
unfolding flush_reasoning report_reasoning
close_reasoning s = if s.in_reasoning then end_section (report_reasoning (flush_reasoning s)) else s

unfoldable pub append_text : BlockState → Text → BlockState
unfolding close_reasoning flush_text_chunks
append_text s delta =
    let closed = close_reasoning s in
    let buffered = record closed {
      in_text = closed.in_text ++ delta;
      full_text = closed.full_text ++ delta;
    } in
    if is_empty delta then s else flush_text_chunks buffered
