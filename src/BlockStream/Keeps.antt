-- ===== src/BlockStream/Keeps.antt =====
-- One rule for what the fold of text and reasoning keeps: a property of the caller's loop, of what
-- it was handed, of the buffered text and of the tool calls.
use omnigent_go_sdk.Prelude.{
  ℕ, zero, suc, ◌≡◌, refl, inl, inr, sym, Bool, true, false, not, ◌&&◌, ◌||◌, List, [], ◌∷◌, ◌++◌,
  append-nil, Option, none, some, leb, ◌==◌, if◌then◌else◌, if_intro, is_empty, length, arith,
  Option-cases,
}
use omnigent_go_sdk.Prelude.Text.{Text, trim_space}
use omnigent_go_sdk.Prelude.Maps.{TextMap, TextSet}
use omnigent_go_sdk.Sequence.{Step, Consumer}
use omnigent_go_sdk.Block.{
  Block, ToolExecution, text_chunk, text_done, reasoning_start, reasoning_chunk, reasoning_block,
}
use omnigent_go_sdk.BlockStream.State.{BlockState, put}
use omnigent_go_sdk.BlockStream.Text.{
  split_last, emit_all, emit_words, flush_round, flush_loop, flush_text_chunks, flush_rest,
  report_text, close_text,
}
use omnigent_go_sdk.BlockStream.Reasoning.{
  begin_reasoning, flush_line, flush_lines, append_reasoning, flush_reasoning, report_reasoning,
  close_reasoning,
}

-- The blocks of text and reasoning that are no chunk of text.
abbrev pub is_prose : Block → Bool
is_prose (text_done _ _ _) = true
is_prose (reasoning_start _) = true
is_prose (reasoning_chunk _ _) = true
is_prose (reasoning_block _ _ _) = true
is_prose _ = false

pub split_last-append : (s c rest : Text) → split_last s ≡ some (c, rest) → c ++ rest ≡ s
unfolding split_last
split_last-append [] c rest h = cc
split_last-append (r ∷ s) c rest h = elim (Option-cases (split_last s)) [
  | inl e ↦ ground (arith, e)
  | inr ((d, q), e) ↦ ground (arith, e, split_last-append s d q e)
]

-- What a property may speak of.
pub record View : Type 0 where
  pub yield : Consumer Block
  pub out : List (Step Block)
  pub stopped : Bool
  pub in_text : Text
  pub executions : TextMap ToolExecution
  pub seen_calls : TextSet
  pub seen_results : TextSet

abbrev pub view : BlockState → View
view s = record {
  yield = s.yield;
  out = s.out;
  stopped = s.stopped;
  in_text = s.in_text;
  executions = s.executions;
  seen_calls = s.seen_calls;
  seen_results = s.seen_results;
}

abbrev pub Property : Type 1
Property = View → Type 0

abbrev pub At : Property → BlockState → Type 0
At P s = P (view s)

module _ (P : Property)
    (quiet : (s : BlockState) (b : Block) → is_prose b ≡ true → At P s → At P (put s b))
    (chunk : (s : BlockState) (c rest : Text)
      → s.in_text ≡ c ++ rest
      → At P s
      → At P (record (put s (text_chunk s.ctx c)) { in_text = rest })) where
  emit_all-keeps : (s : BlockState) → At P s → At P (emit_all s)
  unfolding emit_all
  emit_all-keeps s h = chunk s s.in_text [] (sym (append-nil s.in_text)) h

  emit_words-keeps :
      (s : BlockState) (c rest : Text)
      → split_last s.in_text ≡ some (c, rest)
      → At P s
      → At P (emit_words s c rest)
  unfolding emit_words put
  emit_words-keeps s c rest e h = chunk s c rest (sym (split_last-append s.in_text c rest e)) h

  flush_round-keeps :
      (s : BlockState) (again : Text → Text → BlockState) (o : Option (Text × Text))
      → At P s
      → ((c rest : Text) → o ≡ some (c, rest) → At P (again c rest))
      → At P (flush_round s again o)
  unfolding flush_round
  flush_round-keeps s again none h k = emit_all-keeps s h
  flush_round-keeps s again (some (c, rest)) h k =
      if_intro (At P) (leb (length c) 1) (λ _. emit_all-keeps s h) (λ _. k c rest refl)

  flush_loop-keeps : (f : ℕ) (s : BlockState) → At P s → At P (flush_loop f s)
  unfolding flush_loop
  flush_loop-keeps zero s h = h
  flush_loop-keeps (suc f) s h =
      if_intro (At P) (leb s.threshold (length s.in_text))
        (λ _.
          flush_round-keeps s _ (split_last s.in_text) h
            (λ c rest e. flush_loop-keeps f (emit_words s c rest) (emit_words-keeps s c rest e h)))
        (λ _. h)

  pub flush_text_chunks-keeps : (s : BlockState) → At P s → At P (flush_text_chunks s)
  unfolding flush_text_chunks
  flush_text_chunks-keeps s h = flush_loop-keeps (suc (length s.in_text)) s h

  flush_rest-keeps : (s : BlockState) → At P s → At P (flush_rest s)
  unfolding flush_rest
  flush_rest-keeps s h =
      if_intro (At P) (is_empty s.in_text) (λ _. h)
        (λ _. chunk s s.in_text [] (sym (append-nil s.in_text)) h)

  report_text-keeps : (s : BlockState) → At P s → At P (report_text s)
  unfolding report_text
  report_text-keeps s h =
      if_intro (At P) (is_empty s.full_text) (λ _. h)
        (λ _. quiet (record s { full_text = [] }) _ refl h)

  pub close_text-keeps : (s : BlockState) → At P s → At P (close_text s)
  unfolding close_text
  close_text-keeps s h = report_text-keeps (flush_rest s) (flush_rest-keeps s h)

  pub begin_reasoning-keeps : (s : BlockState) → At P s → At P (begin_reasoning s)
  unfolding begin_reasoning
  begin_reasoning-keeps s h =
      if_intro (At P) s.in_reasoning (λ _. h)
        (λ _. quiet (record s { in_reasoning = true; reasoning_chunked = false }) _ refl h)

  flush_line-keeps : (s : BlockState) (line : Text) → At P s → At P (flush_line s line)
  unfolding flush_line
  flush_line-keeps s line h =
      if_intro (At P) (is_empty (trim_space line)) (λ _. h)
        (λ _. quiet (record s { reasoning_chunked = true }) _ refl h)

  flush_lines-keeps : (s : BlockState) (line rest : Text) → At P s → At P (flush_lines s line rest)
  unfolding flush_lines
  flush_lines-keeps s line [] h = h
  flush_lines-keeps s line (r ∷ rest) h =
      if_intro (At P) (r == 10)
        (λ _. flush_lines-keeps (flush_line s line) [] rest (flush_line-keeps s line h))
        (λ _. flush_lines-keeps s (line ++ r ∷ []) rest h)

  open_section-keeps :
      (s : BlockState) → At P s → At P (if s.in_reasoning then s else begin_reasoning s)
  open_section-keeps s h = if_intro (At P) s.in_reasoning (λ _. h) (λ _. begin_reasoning-keeps s h)

  note-keeps :
      (s : BlockState) (delta : Text) (summary : Bool)
      → At P s
      → At P (
          if summary
          then record s { summary_text = s.summary_text ++ delta }
          else record s { reasoning_text = s.reasoning_text ++ delta })
  note-keeps s delta true h = h
  note-keeps s delta false h = h

  pub append_reasoning-keeps :
      (s : BlockState) (delta : Text) (summary : Bool)
      → At P s
      → At P (append_reasoning s delta summary)
  unfolding append_reasoning
  append_reasoning-keeps s delta summary h =
      if_intro (At P) (is_empty delta) (λ _. h)
        (λ _. flush_lines-keeps _ _ delta (note-keeps _ delta summary (open_section-keeps s h)))

  flush_reasoning-keeps : (s : BlockState) → At P s → At P (flush_reasoning s)
  unfolding flush_reasoning
  flush_reasoning-keeps s h =
      if_intro (At P) (is_empty (trim_space s.reasoning)) (λ _. h)
        (λ _. quiet (record s { reasoning_chunked = true }) _ refl h)

  report_reasoning-keeps : (s : BlockState) → At P s → At P (report_reasoning s)
  unfolding report_reasoning
  report_reasoning-keeps s h =
      if_intro (At P)
        (not s.reasoning_chunked
          && (not (is_empty s.reasoning_text) || not (is_empty s.summary_text)))
        (λ _. quiet s (reasoning_block s.ctx s.reasoning_text s.summary_text) refl h) (λ _. h)

  pub close_reasoning-keeps : (s : BlockState) → At P s → At P (close_reasoning s)
  unfolding close_reasoning
  close_reasoning-keeps s h =
      if_intro (At P) s.in_reasoning
        (λ _. report_reasoning-keeps (flush_reasoning s) (flush_reasoning-keeps s h)) (λ _. h)
