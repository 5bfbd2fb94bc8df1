-- ===== src/Query/Answer.antt =====
-- What `Query` answers, in terms of the blocks of the stream.
use omnigent_go_sdk.Prelude.{
  ◌≡◌, refl, sym, ap, ◌∙◌, subst, Bool, true, List, [], ◌∷◌, ◌++◌, append-nil, append_assoc, Option,
  none, some, if_intro,
}
use omnigent_go_sdk.Prelude.Text.{Text}
use omnigent_go_sdk.Errors.{Err}
use omnigent_go_sdk.Sequence.{Step, value, failure}
use omnigent_go_sdk.Block.{Block, BlockContext, text_done, file_block, response_end}
use omnigent_go_sdk.Transform.{
  pipe, is_end, release, skip_ends_loop, skip_intermediate_ends, flush_text, merge_loop,
  merge_text_across_iterations,
}
use omnigent_go_sdk.Query.{QueryResult, query_blocks, query}
use omnigent_go_sdk.Query.Parts.{
  word_of, file_of, texts, files_of, first_error, text_unless, query_loop-answer,
}

-- The rewritten steps carry the same files and the same first error, and, where there is none, the
-- same texts behind the one accumulated.
record SaysSame (text : Text) (steps out : List (Step Block)) : Type 0 where
  error : first_error out ≡ first_error steps
  files : files_of out ≡ files_of steps
  words : first_error steps ≡ none → texts out ≡ text ++ texts steps

passed :
    (b : Option Block) (steps out : List (Step Block))
    → SaysSame [] steps out
    → SaysSame [] (value b ∷ steps) (value b ∷ out)
passed b steps out h = record {
  error = h.error;
  files = ap (λ (fs : List Block). file_of b ++ fs) h.files;
  words = λ e. ap (λ (t : Text). word_of b ++ t) (h.words e);
}

-- An end that is held back says nothing.
Mute : Option Block → Type 0
Mute held = SaysSame [] [] (release held)

mute_end : (b : Option Block) → is_end b ≡ true → (word_of b ≡ []) × (file_of b ≡ [])
mute_end (some (response_end at status r)) h = (refl, refl)
mute_end (some (text_done _ _ _)) h = cc
mute_end (some (file_block _ _ _)) h = cc
mute_end b h = (refl, refl)

release-Mute : (b : Option Block) → is_end b ≡ true → Mute b
unfolding Mute
release-Mute none h = cc
release-Mute (some b) h =
    let (w, f) = mute_end (some b) h in
    record { error = refl; files = rw f refl; words = λ _. rw w refl }

held_back :
    (b : Option Block) (steps out : List (Step Block))
    → is_end b ≡ true
    → SaysSame [] steps out
    → SaysSame [] (value b ∷ steps) out
held_back b steps out e h =
    let (w, f) = mute_end b e in
    record {
      error = h.error;
      files = h.files ∙ ap (λ (fs : List Block). fs ++ files_of steps) (sym f);
      words = λ q. h.words q ∙ ap (λ (t : Text). t ++ texts steps) (sym w);
    }

skip_ends-says :
    (held : Option Block) (steps : List (Step Block))
    → Mute held
    → SaysSame [] steps (skip_ends_loop held steps)
unfolding skip_ends_loop Mute
skip_ends-says held [] m = m
skip_ends-says held (failure b err ∷ steps) m = record {
  error = refl;
  files = refl;
  words = λ e. cc;
}
skip_ends-says held (value b ∷ steps) m =
    if_intro (SaysSame [] (value b ∷ steps)) (is_end b)
      (λ e.
        held_back b steps (skip_ends_loop b steps) e (skip_ends-says b steps (release-Mute b e)))
      (λ _.
        passed b steps (skip_ends_loop none steps)
          (skip_ends-says none steps (record { error = refl; files = refl; words = λ _. refl })))

-- A block that is no text.
quiet :
    (text : Text) (b : Option Block) (steps out : List (Step Block))
    → word_of b ≡ []
    → SaysSame text steps out
    → SaysSame text (value b ∷ steps) (value b ∷ out)
quiet text b steps out w h = record {
  error = h.error;
  files = ap (λ (fs : List Block). file_of b ++ fs) h.files;
  words = λ e. rw w (h.words e);
}

flushed :
    (text : Text) (at : BlockContext) (steps out : List (Step Block))
    → SaysSame [] steps out
    → SaysSame text steps (flush_text text at ++ out)
unfolding flush_text
flushed [] at steps out h = h
flushed (c ∷ text) at steps out h = record {
  error = h.error;
  files = h.files;
  words = λ e. ap (λ (t : Text). (c ∷ text) ++ t) (h.words e);
}

grown :
    (text full : Text) (at : BlockContext) (code : Bool) (steps out : List (Step Block))
    → SaysSame (text ++ full) steps out
    → SaysSame text (value (some (text_done at full code)) ∷ steps) out
grown text full at code steps out h = record {
  error = h.error;
  files = h.files;
  words = λ e. h.words e ∙ append_assoc text full (texts steps);
}

merge-says :
    (text : Text) (ctx : BlockContext) (steps : List (Step Block))
    → SaysSame text steps (merge_loop text ctx steps)
unfolding merge_loop
merge-says text ctx [] =
    subst (SaysSame text []) (append-nil (flush_text text ctx))
      (flushed text ctx [] [] (record { error = refl; files = refl; words = λ _. refl }))
merge-says text ctx (failure b err ∷ steps) = record { error = refl; files = refl; words = λ e. cc }
merge-says text ctx (value (some (text_done at full code)) ∷ steps) =
    grown text full at code steps (merge_loop (text ++ full) at steps)
      (merge-says (text ++ full) at steps)
merge-says text ctx (value (some (response_end at status r)) ∷ steps) =
    flushed text at (value (some (response_end at status r)) ∷ steps)
      (value (some (response_end at status r)) ∷ merge_loop [] ctx steps)
      (quiet [] (some (response_end at status r)) steps (merge_loop [] ctx steps) refl
        (merge-says [] ctx steps))
merge-says text ctx (value b ∷ steps) =
    quiet text b steps (merge_loop text ctx steps) refl (merge-says text ctx steps)

same_text :
    (e e' : Option Err) (t t' : Text)
    → e ≡ e'
    → (e' ≡ none → t ≡ t')
    → text_unless e t ≡ text_unless e' t'
same_text e none t t' q h = ap (λ (o : Option Err). text_unless o t) q ∙ h refl
same_text e (some err) t t' q h = ap (λ (o : Option Err). text_unless o t) q

answers : Text → List Block → Option Err → QueryResult × Option Err
answers text files error = (record { text = text; files = files }, error)

same_answer :
    (t t' : Text) (f f' : List Block) (e e' : Option Err)
    → t ≡ t'
    → f ≡ f'
    → e ≡ e'
    → answers t f e ≡ answers t' f' e'
same_answer t t' f f' e e' p q r = cc

-- For a caller of Query and any blocks of the turn's stream: the error is the first one of the
-- stream; the files are those of the blocks before it; and the text is that of the finished texts of
-- the stream put together where there is no error, and empty where there is one.
pub query_answer :
    (blocks : List (Step Block))
    → query blocks ≡ (
      record { text = text_unless (first_error blocks) (texts blocks); files = files_of blocks },
      first_error blocks,
    )
unfolding query query_blocks pipe skip_intermediate_ends merge_text_across_iterations answers
query_answer blocks =
    let ends : List (Step Block) = skip_ends_loop none blocks in
    let out : List (Step Block) =
      merge_loop [] (record { agent = []; depth = 0; iteration = 0 }) ends in
    let h =
      skip_ends-says none blocks
        (unfold Mute in record { error = refl; files = refl; words = λ _. refl }) in
    let k = merge-says [] (record { agent = []; depth = 0; iteration = 0 }) ends in
    query_loop-answer [] [] out
    ∙ same_answer (text_unless (first_error out) (texts out))
        (text_unless (first_error blocks) (texts blocks)) (files_of out) (files_of blocks)
        (first_error out) (first_error blocks)
        (same_text (first_error out) (first_error blocks) (texts out) (texts blocks)
          (k.error ∙ h.error) (λ e. k.words (h.error ∙ e) ∙ h.words e))
        (k.files ∙ h.files) (k.error ∙ h.error)
