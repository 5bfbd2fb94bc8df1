-- ===== src/BlockStream/Flushed.antt =====
-- blockstream.go: where the loop of `flushTextChunks` stops.
use omnigent_go_sdk.Prelude.{
  ℕ, zero, suc, ◌+◌, ◌<◌, ◌≡◌, refl, sym, ap, ◌∙◌, Option, none, some, leb, if_intro, length,
  length-append, arith,
}
use omnigent_go_sdk.Prelude.Text.{Text}
use omnigent_go_sdk.BlockStream.State.{BlockState, put}
use omnigent_go_sdk.BlockStream.Text.{
  split_last, emit_all, emit_words, flush_round, flush_loop, flush_text_chunks,
}
use omnigent_go_sdk.BlockStream.Keeps.{split_last-append}

abbrev Below : ℕ → BlockState → Type 0
Below n s = length s.in_text < n

-- What is left after a round is shorter by the part that was handed over.
shorter : (s c rest : Text) → split_last s ≡ some (c, rest) → length c + length rest ≡ length s
shorter s c rest e = sym (length-append c rest) ∙ ap length (split_last-append s c rest e)

flush_round-Below :
    (n : ℕ) (s : BlockState) (again : Text → Text → BlockState) (o : Option (Text × Text))
    → 0 < n
    → ((c rest : Text) → o ≡ some (c, rest) → 1 < length c → Below n (again c rest))
    → Below n (flush_round s again o)
unfolding flush_round emit_all put
flush_round-Below n s again none h k = h
flush_round-Below n s again (some (c, rest)) h k =
    if_intro (Below n) (leb (length c) 1) (λ _. h) (λ e. k c rest refl (ground (arith, e)))

flush_loop-Below :
    (f : ℕ) (s : BlockState)
    → 0 < s.threshold
    → length s.in_text < f
    → Below s.threshold (flush_loop f s)
unfolding flush_loop emit_words put
flush_loop-Below zero s h enough = absurd (omega (arith, enough))
flush_loop-Below (suc f) s h enough =
    if_intro (Below s.threshold) (leb s.threshold (length s.in_text))
      (λ _.
        flush_round-Below s.threshold s (λ c rest. flush_loop f (emit_words s c rest))
          (split_last s.in_text) h
          (λ c rest e long.
            flush_loop-Below f (emit_words s c rest) h
              (omega (arith, shorter s.in_text c rest e, long, enough))))
      (λ e. ground (arith, e))

-- With a positive threshold, the loop of flushTextChunks comes to its end on the fuel it is given:
-- the text left in the buffer is shorter than the threshold, whatever the buffer held.
pub flush_text_chunks_done :
    (s : BlockState) → 0 < s.threshold → length (flush_text_chunks s).in_text < s.threshold
unfolding flush_text_chunks
flush_text_chunks_done s h = flush_loop-Below (suc (length s.in_text)) s h (omega arith)
