-- ===== src/Transform.antt =====
-- transform.go: rewriters of a sequence of blocks, as functions on what a caller that reads to the
-- end is handed; a caller that stops is handed the first part of it.
use omnigent_go_sdk.Prelude.{
  Bool, true, false, not, ◌&&◌, List, [], ◌∷◌, ◌++◌, Option, none, some, if◌then◌else◌, is_empty,
  any,
}
use omnigent_go_sdk.Prelude.Text.{Text, codes, same, contains}
use omnigent_go_sdk.Sequence.{Step, value, failure}
use omnigent_go_sdk.Block.{Block, BlockContext, context, text_done, response_end}

abbrev pub Transform : Type 0
Transform = List (Step Block) → List (Step Block)

unfoldable pub pipe : List (Step Block) → List Transform → List (Step Block)
pipe steps [] = steps
pipe steps (t ∷ ts) = pipe (t steps) ts

unfoldable pub any_match : List (Option Block → Bool) → Option Block → Bool
any_match predicates block = any (λ (matches : Option Block → Bool). matches block) predicates

unfoldable pub skip_blocks : List (Option Block → Bool) → Transform
unfolding any_match
skip_blocks drop [] = []
skip_blocks drop (failure b err ∷ steps) = failure b err ∷ skip_blocks drop steps
skip_blocks drop (value b ∷ steps) =
    let rest = skip_blocks drop steps in if any_match drop b then rest else value b ∷ rest

unfoldable pub only_blocks : List (Option Block → Bool) → Transform
unfolding any_match
only_blocks keep [] = []
only_blocks keep (failure b err ∷ steps) = failure b err ∷ only_blocks keep steps
only_blocks keep (value b ∷ steps) =
    let rest = only_blocks keep steps in if not (any_match keep b) then rest else value b ∷ rest

abbrev pub of_other_agent : Text → Option Block → Bool
of_other_agent agent none = false
of_other_agent agent (some b) = not (is_empty agent) && not (same (context b).agent agent)

unfoldable pub only_agent : Text → Transform
unfolding context
only_agent agent [] = []
only_agent agent (failure b err ∷ steps) = failure b err ∷ only_agent agent steps
only_agent agent (value b ∷ steps) =
    let rest = only_agent agent steps in if of_other_agent agent b then rest else value b ∷ rest

abbrev pub is_end : Option Block → Bool
is_end (some (response_end _ _ _)) = true
is_end _ = false

abbrev pub release : Option Block → List (Step Block)
release none = []
release (some b) = value (some b) ∷ []

-- The loop of SkipIntermediateEnds, with the end that is held back.
unfoldable pub skip_ends_loop : Option Block → Transform
skip_ends_loop held [] = release held
skip_ends_loop held (failure b err ∷ steps) = failure b err ∷ skip_ends_loop held steps
skip_ends_loop held (value b ∷ steps) =
    let hold = skip_ends_loop b steps in
    let pass = skip_ends_loop none steps in if is_end b then hold else value b ∷ pass

unfoldable pub skip_intermediate_ends : Transform
unfolding skip_ends_loop
skip_intermediate_ends = skip_ends_loop none

unfoldable pub flush_text : Text → BlockContext → List (Step Block)
flush_text text at =
    if is_empty text
    then []
    else value (some (text_done at text (contains text (codes "```")))) ∷ []

-- The loop of MergeTextAcrossIterations, with the text accumulated and the context of its last part.
unfoldable pub merge_loop : Text → BlockContext → Transform
unfolding flush_text
merge_loop text ctx [] = flush_text text ctx
merge_loop text ctx (failure b err ∷ steps) = failure b err ∷ merge_loop text ctx steps
merge_loop text ctx (value (some (text_done at full _)) ∷ steps) =
    merge_loop (text ++ full) at steps
merge_loop text ctx (value (some (response_end at status r)) ∷ steps) =
    flush_text text at ++ value (some (response_end at status r)) ∷ merge_loop [] ctx steps
merge_loop text ctx (value b ∷ steps) = value b ∷ merge_loop text ctx steps

unfoldable pub merge_text_across_iterations : Transform
unfolding merge_loop
merge_text_across_iterations = merge_loop [] (record { agent = []; depth = 0; iteration = 0 })
