-- ===== src/BlockStream/Polite.antt =====
-- blockstream.go: what a caller that stops is handed.
use omnigent_go_sdk.Prelude.{◌≡◌, refl, sym, not, ◌||◌, List, [], ◌∷◌, none, some, if_intro, subst}
use omnigent_go_sdk.Prelude.Text.{Text}
use omnigent_go_sdk.Prelude.Int.{ℤ, positive_or}
use omnigent_go_sdk.Prelude.Maps.{lookup}
use omnigent_go_sdk.Wire.{Event}
use omnigent_go_sdk.Sequence.{Step, value, failure, Consumer, handed, Offered, nothing, offer}
use omnigent_go_sdk.Block.{Block, text_chunk}
use omnigent_go_sdk.BlockStream.State.{BlockState, start, emit, put}
use omnigent_go_sdk.BlockStream.Calls.{execution_of}
use omnigent_go_sdk.BlockStream.Items.{Codec}
use omnigent_go_sdk.BlockStream.Fold.{default_text_flush_threshold, fold, salvage, fold_all, blocks}
use omnigent_go_sdk.BlockStream.Keeps.{At}
use omnigent_go_sdk.BlockStream.Kept.{fold-keeps}
use omnigent_go_sdk.BlockStream.Blind.{
  Blind, of_blind, salvage-keeps, know_call-keeps, show_result-keeps,
}

abbrev Polite : Consumer Block → Blind
Polite caller yield out stopped in_text = (yield ≡ caller) × Offered caller out stopped

module _ (caller : Consumer Block) where
  abbrev Still : BlockState → Type 0
  Still = At (of_blind (Polite caller))

  emitted : (s : BlockState) (step : Step Block) → Still s → Still (emit s step)
  unfolding emit
  emitted s step (e, h) =
      let out = handed s.stopped s.out step in
      (
        e,
        subst (λ z. Offered caller out (s.stopped || not (z out))) (sym e)
            (offer caller s.out s.stopped step h),
      )

  offered : (s : BlockState) (b : Block) → Still s → Still (put s b)
  unfolding put
  offered s b = emitted s (value (some b))

  chunked :
      (s : BlockState) (c rest : Text)
      → Still s
      → Still (record (put s (text_chunk s.ctx c)) { in_text = rest })
  chunked s c rest = offered s (text_chunk s.ctx c)

  fold-Polite : (codec : Codec) (s : BlockState) (e : Event) → Still s → Still (fold codec s e)
  fold-Polite codec s e =
      fold-keeps (λ _. of_blind (Polite caller)) (λ t s b p. offered s b)
        (λ t s c rest _. chunked s c rest) (λ t s delta h. h)
        (λ t s call_id fresh _.
          know_call-keeps (Polite caller) (λ s b _. offered s b) (λ s c rest _. chunked s c rest) s
            call_id fresh (lookup call_id s.executions))
        (λ t s item call_id output _.
          show_result-keeps (Polite caller) (λ s b _. offered s b) (λ s c rest _. chunked s c rest)
            s call_id output (execution_of item call_id (lookup call_id s.executions)))
        codec [] s e

  salvage-Polite : (s : BlockState) → Still s → Still (salvage s)
  salvage-Polite =
      salvage-keeps (Polite caller) (λ s b _. offered s b) (λ s c rest _. chunked s c rest)

  fold_all-Polite :
      (codec : Codec) (s : BlockState) (steps : List (Step Event))
      → Still s
      → Still (fold_all codec s steps)
  unfolding fold_all
  fold_all-Polite codec s [] h = salvage-Polite s h
  fold_all-Polite codec s (failure _ err ∷ steps) h =
      emitted (salvage s) (failure none err) (salvage-Polite s h)
  fold_all-Polite codec s (value none ∷ steps) h = fold_all-Polite codec s steps h
  fold_all-Polite codec s (value (some e) ∷ steps) h =
      if_intro Still (fold codec s e).stopped (λ _. fold-Polite codec s e h)
        (λ _. fold_all-Polite codec (fold codec s e) steps (fold-Polite codec s e h))

-- Whatever the events, the codec, the flush threshold and the caller: the blocks and errors are
-- handed over one by one, and none after the caller has answered that it stops.
pub stopped_caller :
    (codec : Codec) (threshold : ℤ) (yield : Consumer Block) (steps : List (Step Event))
    → Offered yield
        (blocks codec threshold yield steps).out
        (blocks codec threshold yield steps).stopped
unfolding blocks start
stopped_caller codec threshold yield steps =
    (fold_all-Polite yield codec (start (positive_or default_text_flush_threshold threshold) yield)
      steps (refl, nothing)).1
