-- ===== src/BlockStream/Text.antt =====
-- The text of an answer: buffered, flushed by words, and closed.
use omnigent_go_sdk.Prelude.{
  ℕ, zero, suc, Bool, ◌||◌, [], ◌∷◌, Option, none, some, leb, ◌==◌, if◌then◌else◌, is_empty, length,
}
use omnigent_go_sdk.Prelude.Text.{Text, codes, contains}
use omnigent_go_sdk.Block.{text_chunk, text_done}
use omnigent_go_sdk.BlockStream.State.{BlockState, put}

-- One of the characters of " \n\t".
abbrev pub is_separator : ℕ → Bool
is_separator r = r == 32 || r == 10 || r == 9

-- The text up to and with its last separator, and what follows it: strings.LastIndexAny and the
-- two slices at cut + 1.
unfoldable pub split_last : Text → Option (Text × Text)
split_last [] = none
split_last (r ∷ s) = elim (split_last s) [
  | some (c, rest) ↦ some (r ∷ c, rest)
  | none ↦ if is_separator r then some (r ∷ [], s) else none
]

unfoldable pub emit_all : BlockState → BlockState
emit_all s = record (put s (text_chunk s.ctx s.in_text)) { in_text = [] }

unfoldable pub emit_words : BlockState → Text → Text → BlockState
emit_words s chunk rest = let s' = record s { in_text = rest } in put s' (text_chunk s'.ctx chunk)

-- One round of the loop of `flushTextChunks`; `again` is the next round. A cut at index 0 leaves a
-- first part of one character.
unfoldable pub flush_round :
    BlockState → (Text → Text → BlockState) → Option (Text × Text) → BlockState
unfolding emit_all
flush_round s again none = emit_all s
flush_round s again (some (chunk, rest)) =
    if leb (length chunk) 1 then emit_all s else again chunk rest

-- The loop, on fuel.
unfoldable pub flush_loop : ℕ → BlockState → BlockState
unfolding flush_round emit_words
flush_loop zero s = s
flush_loop (suc f) s =
    let next =
      flush_round s (λ chunk rest. flush_loop f (emit_words s chunk rest)) (split_last s.in_text) in
    if leb s.threshold (length s.in_text) then next else s

unfoldable pub flush_text_chunks : BlockState → BlockState
unfolding flush_loop
flush_text_chunks s = flush_loop (suc (length s.in_text)) s

unfoldable pub flush_rest : BlockState → BlockState
flush_rest s =
    if is_empty s.in_text then s else record (put s (text_chunk s.ctx s.in_text)) { in_text = [] }

unfoldable pub report_text : BlockState → BlockState
report_text s =
    let s' = record s { full_text = [] } in
    if is_empty s.full_text
    then s
    else put s' (text_done s'.ctx s.full_text (contains s.full_text (codes "```")))

unfoldable pub close_text : BlockState → BlockState
unfolding flush_rest report_text
close_text s = report_text (flush_rest s)
