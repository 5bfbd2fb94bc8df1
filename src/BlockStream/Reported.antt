-- ===== src/BlockStream/Reported.antt =====
-- blockstream.go: how often a tool call and its result are reported.
use omnigent_go_sdk.Prelude.{◌≤◌, ◌≡◌, refl, List, [], ◌∷◌, Option, none, some, if_intro, arith}
use omnigent_go_sdk.Prelude.Text.{Text}
use omnigent_go_sdk.Prelude.Int.{ℤ, positive_or}
use omnigent_go_sdk.Prelude.Maps.{lookup}
use omnigent_go_sdk.Errors.{Err}
use omnigent_go_sdk.Wire.{Event, Fields}
use omnigent_go_sdk.Sequence.{Step, value, failure, Consumer}
use omnigent_go_sdk.Block.{Block, ToolExecution}
use omnigent_go_sdk.BlockStream.State.{BlockState, start, emit}
use omnigent_go_sdk.BlockStream.Text.{close_text}
use omnigent_go_sdk.BlockStream.Calls.{execution_of}
use omnigent_go_sdk.BlockStream.Items.{Codec}
use omnigent_go_sdk.BlockStream.Fold.{default_text_flush_threshold, fold, salvage, fold_all, blocks}
use omnigent_go_sdk.BlockStream.Keeps.{close_text-keeps, close_reasoning-keeps}
use omnigent_go_sdk.BlockStream.Kept.{fold-keeps}
use omnigent_go_sdk.BlockStream.Reports.{
  call_reports_of, result_reports_of, call_reports, result_reports, total-handed, Reported,
  quiet-none, prose_plain, silent, chunk-Reported, Still,
}
use omnigent_go_sdk.BlockStream.Shown.{know_call-Reported, show_result-Reported}

execution_of-call_id :
    (s : BlockState) (item : Fields) (call_id : Text) (known : Option ToolExecution)
    → lookup call_id s.executions ≡ known
    → Still s
    → (execution_of item call_id known).call_id ≡ call_id
unfolding execution_of
execution_of-call_id s item call_id none l h = refl
execution_of-call_id s item call_id (some x) l h = h.known call_id x l

fold-Reported : (codec : Codec) (s : BlockState) (e : Event) → Still s → Still (fold codec s e)
fold-Reported codec s e =
    fold-keeps (λ _. Reported) (λ t s b p. silent s b (λ k. quiet-none k b p))
      (λ t s c rest _. chunk-Reported s c rest)
      (λ t s delta h. record { calls = h.calls; results = h.results; known = h.known })
      (λ t s call_id fresh e h.
        know_call-Reported s call_id fresh (lookup call_id s.executions) refl e h)
      (λ t s item call_id output unseen h.
        show_result-Reported s call_id output
          (execution_of item call_id (lookup call_id s.executions))
          (execution_of-call_id s item call_id (lookup call_id s.executions) refl h) unseen h)
      codec [] s e

salvage-Reported : (s : BlockState) → Still s → Still (salvage s)
unfolding salvage
salvage-Reported s h =
    if_intro Still s.ended_response (λ _. h)
      (λ _.
        close_reasoning-keeps Reported (λ s b p. silent s b (λ k. quiet-none k b (prose_plain b p)))
          (λ s c rest _. chunk-Reported s c rest) (close_text s)
          (close_text-keeps Reported (λ s b p. silent s b (λ k. quiet-none k b (prose_plain b p)))
            (λ s c rest _. chunk-Reported s c rest) s h))

-- Every call, and every result, is reported at most once.
abbrev pub OnceEach : BlockState → Type 0
OnceEach s = (k : Text) → (call_reports k s.out ≤ 1) × (result_reports k s.out ≤ 1)

once_each : (s : BlockState) → Still s → OnceEach s
once_each s h k = (ground (arith, h.calls k), ground (arith, h.results k))

failed-OnceEach : (s : BlockState) (err : Err) → OnceEach s → OnceEach (emit s (failure none err))
unfolding emit
failed-OnceEach s err h k = (
  omega (arith, (h k).0, total-handed (call_reports_of k) s.stopped s.out (failure none err)),
  omega (arith, (h k).1, total-handed (result_reports_of k) s.stopped s.out (failure none err)),
)

fold_all-OnceEach :
    (codec : Codec) (s : BlockState) (steps : List (Step Event))
    → Still s
    → OnceEach (fold_all codec s steps)
unfolding fold_all
fold_all-OnceEach codec s [] h = once_each (salvage s) (salvage-Reported s h)
fold_all-OnceEach codec s (failure _ err ∷ steps) h =
    failed-OnceEach (salvage s) err (once_each (salvage s) (salvage-Reported s h))
fold_all-OnceEach codec s (value none ∷ steps) h = fold_all-OnceEach codec s steps h
fold_all-OnceEach codec s (value (some e) ∷ steps) h =
    if_intro OnceEach (fold codec s e).stopped
      (λ _. once_each (fold codec s e) (fold-Reported codec s e h))
      (λ _. fold_all-OnceEach codec (fold codec s e) steps (fold-Reported codec s e h))

none_known : (k : Text) (x : ToolExecution) → lookup k [] ≡ some x → x.call_id ≡ k
unfolding lookup
none_known k x l = cc

-- Whatever the events, the codec, the flush threshold and the caller: for every call id, the blocks
-- that the caller is handed report the call at most once and its result at most once.
pub reported_once :
    (codec : Codec) (threshold : ℤ) (yield : Consumer Block) (steps : List (Step Event)) (k : Text)
    → (call_reports k (blocks codec threshold yield steps).out ≤ 1)
      × (result_reports k (blocks codec threshold yield steps).out ≤ 1)
unfolding blocks start
reported_once codec threshold yield steps =
    fold_all-OnceEach codec (start (positive_or default_text_flush_threshold threshold) yield) steps
      (record {
        calls = λ k. ground arith;
        results = λ k. ground arith;
        known = λ k x l. none_known k x l;
      })
