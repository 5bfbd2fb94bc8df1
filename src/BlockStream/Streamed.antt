-- ===== src/BlockStream/Streamed.antt =====
-- blockstream.go: the chunks of text that a caller is handed, and the deltas that the server sent.
use omnigent_go_sdk.Prelude.{
  ◌≡◌, refl, sym, ap, ◌∙◌, Bool, true, false, List, [], ◌∷◌, ◌++◌, append-nil, append_assoc, none,
  some, true≢false, subst, if_intro, is_empty, arith,
}
use omnigent_go_sdk.Prelude.Text.{Text}
use omnigent_go_sdk.Prelude.Int.{ℤ, positive_or}
use omnigent_go_sdk.Errors.{Err}
use omnigent_go_sdk.Wire.{Event}
use omnigent_go_sdk.Sequence.{Step, value, failure, Consumer, handed}
use omnigent_go_sdk.Block.{Block, text_chunk}
use omnigent_go_sdk.BlockStream.State.{BlockState, start, emit, put, out-put}
use omnigent_go_sdk.BlockStream.Calls.{execution_of}
use omnigent_go_sdk.Prelude.Maps.{lookup}
use omnigent_go_sdk.BlockStream.Text.{flush_rest, report_text, close_text}
use omnigent_go_sdk.BlockStream.Reasoning.{close_reasoning}
use omnigent_go_sdk.BlockStream.Items.{Codec}
use omnigent_go_sdk.BlockStream.Fold.{default_text_flush_threshold, fold, salvage, fold_all, blocks}
use omnigent_go_sdk.BlockStream.Keeps.{At}
use omnigent_go_sdk.BlockStream.Kept.{delta_of, is_plain, fold-keeps}
use omnigent_go_sdk.BlockStream.Blind.{
  is_chunk, Blind, of_blind, closed_reasoning, salvage-keeps, know_call-keeps, show_result-keeps,
}

-- The text of the chunks among the steps.
abbrev pub chunk_of : Step Block → Text
chunk_of (value (some (text_chunk _ text))) = text
chunk_of _ = []

abbrev pub chunks : List (Step Block) → Text
chunks [] = []
chunks (step ∷ steps) = chunk_of step ++ chunks steps

-- The text that the deltas carry, up to the first error.
abbrev pub deltas : List (Step Event) → Text
deltas [] = []
deltas (failure _ _ ∷ _) = []
deltas (value none ∷ steps) = deltas steps
deltas (value (some e) ∷ steps) = delta_of e ++ deltas steps

-- The caller's loop never stops.
abbrev pub ReadsOn : Consumer Block → Type 0
ReadsOn yield = (out : List (Step Block)) → yield out ≡ true

chunks-append : (xs ys : List (Step Block)) → chunks (xs ++ ys) ≡ chunks xs ++ chunks ys
chunks-append [] ys = refl
chunks-append (x ∷ xs) ys =
    rw (chunks-append xs ys) (sym (append_assoc (chunk_of x) (chunks xs) (chunks ys)))

-- All of `t` is in the chunks and the buffer.
abbrev Carries : Text → Blind
Carries t yield out stopped in_text =
    ReadsOn yield × (stopped ≡ false) × (chunks out ++ in_text ≡ t)

no_chunk : (b : Block) → is_chunk b ≡ false → chunk_of (value (some b)) ≡ []
no_chunk (text_chunk _ _) h = cc
no_chunk b h = refl

chunks-put :
    (s : BlockState) (b : Block)
    → s.stopped ≡ false
    → chunks (put s b).out ≡ chunks s.out ++ chunk_of (value (some b))
chunks-put s b going =
    ap chunks (out-put s b going)
    ∙ chunks-append s.out (value (some b) ∷ [])
    ∙ ap (λ (t : Text). chunks s.out ++ t) (append-nil (chunk_of (value (some b))))

put-Carries :
    (t : Text) (s : BlockState) (b : Block) (rest : Text)
    → ReadsOn s.yield
    → s.stopped ≡ false
    → chunks s.out ++ (chunk_of (value (some b)) ++ rest) ≡ t
    → Carries t (put s b).yield (put s b).out (put s b).stopped rest
unfolding put
put-Carries t s b rest reads going h = (
  reads,
  ground (arith, going, reads (s.out ++ value (some b) ∷ [])),
  ap (λ (u : Text). u ++ rest) (chunks-put s b going)
      ∙ append_assoc (chunks s.out) (chunk_of (value (some b))) rest
      ∙ h,
)

quiet-Carries :
    (t : Text) (s : BlockState) (b : Block)
    → is_chunk b ≡ false
    → At (of_blind (Carries t)) s
    → At (of_blind (Carries t)) (put s b)
unfolding put
quiet-Carries t s b q (reads, going, h) =
    put-Carries t s b s.in_text reads going (rw (no_chunk b q) h)

chunk-Carries :
    (t : Text) (s : BlockState) (c rest : Text)
    → s.in_text ≡ c ++ rest
    → At (of_blind (Carries t)) s
    → At (of_blind (Carries t)) (record (put s (text_chunk s.ctx c)) { in_text = rest })
unfolding put
chunk-Carries t s c rest e (reads, going, h) =
    put-Carries t s (text_chunk s.ctx c) rest reads going
      (ap (λ (u : Text). chunks s.out ++ u) (sym e) ∙ h)

plain_no_chunk : (b : Block) → is_plain b ≡ true → is_chunk b ≡ false
plain_no_chunk (text_chunk _ _) h = cc
plain_no_chunk b h = refl

fold-Carries :
    (codec : Codec) (t : Text) (s : BlockState) (e : Event)
    → At (of_blind (Carries t)) s
    → At (of_blind (Carries (t ++ delta_of e))) (fold codec s e)
fold-Carries =
    fold-keeps (λ t. of_blind (Carries t)) (λ t s b p. quiet-Carries t s b (plain_no_chunk b p))
      chunk-Carries
      (λ t s delta h. (
        h.0,
        h.1,
        sym (append_assoc (chunks s.out) s.in_text delta) ∙ ap (λ (u : Text). u ++ delta) h.2,
      ))
      (λ t s call_id fresh _.
        know_call-keeps (Carries t) (quiet-Carries t) (chunk-Carries t) s call_id fresh
          (lookup call_id s.executions))
      (λ t s item call_id output _.
        show_result-keeps (Carries t) (quiet-Carries t) (chunk-Carries t) s call_id output
          (execution_of item call_id (lookup call_id s.executions)))

salvage-Carries :
    (t : Text) (s : BlockState)
    → At (of_blind (Carries t)) s
    → At (of_blind (Carries t)) (salvage s)
salvage-Carries t = salvage-keeps (Carries t) (quiet-Carries t) (chunk-Carries t)

-- The buffer is empty.
abbrev Flushed : Blind
Flushed yield out stopped in_text = in_text ≡ []

rest_of_nil : (c rest : Text) → [] ≡ c ++ rest → rest ≡ []
rest_of_nil [] rest e = sym e
rest_of_nil (r ∷ c) rest e = cc

closed_reasoning-Flushed : (s : BlockState) → s.in_text ≡ [] → (close_reasoning s).in_text ≡ []
unfolding put
closed_reasoning-Flushed =
    closed_reasoning Flushed (λ s b q h. h) (λ s c rest e h. rest_of_nil c rest (sym h ∙ e))

flush_rest-Flushed : (s : BlockState) → (flush_rest s).in_text ≡ []
unfolding flush_rest
flush_rest-Flushed s =
    if_intro (λ (u : BlockState). u.in_text ≡ []) (is_empty s.in_text) (λ e. ground arith)
      (λ _. refl)

close_text-Flushed : (s : BlockState) → (close_text s).in_text ≡ []
unfolding close_text report_text put
close_text-Flushed s =
    if_intro (λ (u : BlockState). u.in_text ≡ []) (is_empty (flush_rest s).full_text)
      (λ _. flush_rest-Flushed s) (λ _. flush_rest-Flushed s)

salvage-Flushed : (s : BlockState) → (salvage s).ended_response ≡ false → (salvage s).in_text ≡ []
unfolding salvage
salvage-Flushed s =
    if_intro (λ (u : BlockState). u.ended_response ≡ false → u.in_text ≡ []) s.ended_response
      (λ e h. absurd (true≢false (sym e ∙ h)))
      (λ _ _. closed_reasoning-Flushed (close_text s) (close_text-Flushed s))

-- All of `t` was handed on, or is in the buffer, which is empty unless a response has ended.
abbrev Delivered : Text → BlockState → Type 0
Delivered t s = (chunks s.out ++ s.in_text ≡ t) × (s.ended_response ≡ false → s.in_text ≡ [])

chunks-failed :
    (stopped : Bool) (out : List (Step Block)) (err : Err)
    → chunks (handed stopped out (failure none err)) ≡ chunks out
chunks-failed true out err = refl
chunks-failed false out err = chunks-append out (failure none err ∷ []) ∙ append-nil (chunks out)

failed-Delivered :
    (t : Text) (s : BlockState) (err : Err)
    → At (of_blind (Carries t)) s
    → Delivered t (emit (salvage s) (failure none err))
unfolding emit
failed-Delivered t s err h =
    let u : BlockState = salvage s in
    (
      ap (λ (c : Text). c ++ u.in_text) (chunks-failed u.stopped u.out err)
          ∙ (salvage-Carries t s h).2,
      salvage-Flushed s,
    )

fold_all-Delivered :
    (codec : Codec) (t : Text) (s : BlockState) (steps : List (Step Event))
    → At (of_blind (Carries t)) s
    → Delivered (t ++ deltas steps) (fold_all codec s steps)
unfolding fold_all
fold_all-Delivered codec t s [] h = rw append-nil ((salvage-Carries t s h).2, salvage-Flushed s)
fold_all-Delivered codec t s (failure _ err ∷ steps) h = rw append-nil (failed-Delivered t s err h)
fold_all-Delivered codec t s (value none ∷ steps) h = fold_all-Delivered codec t s steps h
fold_all-Delivered codec t s (value (some e) ∷ steps) h =
    let h' = fold-Carries codec t s e h in
    if_intro (Delivered (t ++ (delta_of e ++ deltas steps))) (fold codec s e).stopped
      (λ halted. absurd (true≢false (sym halted ∙ h'.1)))
      (λ _.
        subst (λ u. Delivered u (fold_all codec (fold codec s e) steps))
          (append_assoc t (delta_of e) (deltas steps))
          (fold_all-Delivered codec (t ++ delta_of e) (fold codec s e) steps h'))

-- For a caller that reads to the end, whatever the codec of arguments and the flush threshold: the
-- chunks that it is handed, put together and followed by what is left in the buffer, are the text
-- deltas of the events up to the first error, and nothing is left in the buffer unless the last
-- response of the sequence has ended.
pub streamed_text :
    (codec : Codec) (threshold : ℤ) (yield : Consumer Block) (steps : List (Step Event))
    → ReadsOn yield
    → (chunks (blocks codec threshold yield steps).out
          ++ (blocks codec threshold yield steps).in_text
        ≡ deltas steps)
      × ((blocks codec threshold yield steps).ended_response ≡ false
          → (blocks codec threshold yield steps).in_text ≡ [])
unfolding blocks start
streamed_text codec threshold yield steps reads =
    fold_all-Delivered codec [] (start (positive_or default_text_flush_threshold threshold) yield)
      steps (reads, refl, refl)
