-- ===== src/Query/Parts.antt =====
-- What the blocks of a turn say, and the loop of `Query` over them.
use omnigent_go_sdk.Prelude.{
  ◌≡◌, refl, ap, ◌∙◌, List, [], ◌∷◌, ◌++◌, append-nil, append_assoc, Option, none, some,
}
use omnigent_go_sdk.Prelude.Text.{Text}
use omnigent_go_sdk.Errors.{Err}
use omnigent_go_sdk.Sequence.{Step, value, failure}
use omnigent_go_sdk.Block.{Block, text_done, file_block}
use omnigent_go_sdk.Query.{QueryResult, query_loop}

abbrev pub word_of : Option Block → Text
word_of (some (text_done _ full _)) = full
word_of _ = []

abbrev pub file_of : Option Block → List Block
file_of (some (file_block c file_id filename)) = file_block c file_id filename ∷ []
file_of _ = []

-- The finished texts up to the first error, put together, and the files up to it.
abbrev pub texts : List (Step Block) → Text
texts [] = []
texts (failure _ _ ∷ steps) = []
texts (value b ∷ steps) = word_of b ++ texts steps

abbrev pub files_of : List (Step Block) → List Block
files_of [] = []
files_of (failure _ _ ∷ steps) = []
files_of (value b ∷ steps) = file_of b ++ files_of steps

abbrev pub first_error : List (Step Block) → Option Err
first_error [] = none
first_error (failure _ err ∷ steps) = some err
first_error (value _ ∷ steps) = first_error steps

abbrev pub text_unless : Option Err → Text → Text
text_unless none text = text
text_unless (some err) text = []

-- The answer of a whole loop.
abbrev pub answer_of : Text → List Block → List (Step Block) → QueryResult × Option Err
answer_of text files steps = (
  record {
    text = text_unless (first_error steps) (text ++ texts steps);
    files = files ++ files_of steps;
  },
  first_error steps,
)

add_file :
    (b : Block) (text : Text) (files : List Block) (steps : List (Step Block))
    → answer_of text (files ++ b ∷ []) steps ≡ (
      record {
        text = text_unless (first_error steps) (text ++ texts steps);
        files = files ++ b ∷ files_of steps;
      },
      first_error steps,
    )
add_file b text files steps =
    ap
      (λ (fs : List Block). (
        record { text = text_unless (first_error steps) (text ++ texts steps); files = fs },
        first_error steps,
      ))
      (append_assoc files (b ∷ []) (files_of steps))

add_text :
    (full text : Text) (files : List Block) (steps : List (Step Block))
    → answer_of (text ++ full) files steps ≡ (
      record {
        text = text_unless (first_error steps) (text ++ (full ++ texts steps));
        files = files ++ files_of steps;
      },
      first_error steps,
    )
add_text full text files steps =
    ap
      (λ (t : Text). (
        record { text = text_unless (first_error steps) t; files = files ++ files_of steps },
        first_error steps,
      ))
      (append_assoc text full (texts steps))

pub query_loop-answer :
    (text : Text) (files : List Block) (steps : List (Step Block))
    → query_loop text files steps ≡ answer_of text files steps
unfolding query_loop
query_loop-answer text files [] = rw (append-nil text, append-nil files) refl
query_loop-answer text files (failure _ err ∷ steps) = rw (append-nil files) refl
query_loop-answer text files (value (some (text_done at full code)) ∷ steps) =
    query_loop-answer (text ++ full) files steps ∙ add_text full text files steps
query_loop-answer text files (value (some (file_block c file_id filename)) ∷ steps) =
    query_loop-answer text (files ++ file_block c file_id filename ∷ []) steps
    ∙ add_file (file_block c file_id filename) text files steps
query_loop-answer text files (value _ ∷ steps) = query_loop-answer text files steps
