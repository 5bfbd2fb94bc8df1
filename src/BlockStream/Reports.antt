-- ===== src/BlockStream/Reports.antt =====
-- How often the blocks report a call and a result of it, and the invariant of the fold about it.
use omnigent_go_sdk.Prelude.{
  ℕ, ◌+◌, ◌≤◌, ◌≡◌, refl, Bool, true, false, List, [], ◌∷◌, ◌++◌, some, arith,
}
use omnigent_go_sdk.Prelude.Text.{Text, same}
use omnigent_go_sdk.Prelude.Maps.{lookup, member}
use omnigent_go_sdk.Sequence.{Step, value, handed}
use omnigent_go_sdk.Block.{Block, ToolExecution, text_chunk, tool_group, tool_result}
use omnigent_go_sdk.BlockStream.State.{BlockState, emit, put}
use omnigent_go_sdk.BlockStream.Keeps.{View, At, is_prose}
use omnigent_go_sdk.BlockStream.Kept.{is_plain}

abbrev one_if : Bool → ℕ
one_if true = 1
one_if false = 0

-- How many of the executions are of the call.
abbrev of_call : Text → List ToolExecution → ℕ
of_call k [] = 0
of_call k (x ∷ xs) = one_if (same x.call_id k) + of_call k xs

abbrev pub call_reports_of : Text → Step Block → ℕ
call_reports_of k (value (some (tool_group _ executions))) = of_call k executions
call_reports_of k _ = 0

abbrev pub result_reports_of : Text → Step Block → ℕ
result_reports_of k (value (some (tool_result _ r))) = one_if (same r.call_id k)
result_reports_of k _ = 0

abbrev total : (Step Block → ℕ) → List (Step Block) → ℕ
total f [] = 0
total f (x ∷ xs) = f x + total f xs

-- How often the call is reported, and how often a result of it.
abbrev pub call_reports : Text → List (Step Block) → ℕ
call_reports k = total (call_reports_of k)

abbrev pub result_reports : Text → List (Step Block) → ℕ
result_reports k = total (result_reports_of k)

total-snoc :
    (f : Step Block → ℕ) (xs : List (Step Block)) (x : Step Block)
    → total f (xs ++ x ∷ []) ≡ total f xs + f x
total-snoc f [] x = ground arith
total-snoc f (y ∷ xs) x = ground (arith, total-snoc f xs x)

pub total-handed :
    (f : Step Block → ℕ) (stopped : Bool) (xs : List (Step Block)) (x : Step Block)
    → total f (handed stopped xs x) ≤ total f xs + f x
total-handed f true xs x = omega arith
total-handed f false xs x = omega (arith, total-snoc f xs x)

-- Every report is marked, and a call that is known is known by its own id.
pub record Reported (v : View) : Type 0 where
  pub calls : (k : Text) → call_reports k v.out ≤ one_if (member k v.seen_calls)
  pub results : (k : Text) → result_reports k v.out ≤ one_if (member k v.seen_results)
  pub known : (k : Text) (x : ToolExecution) → lookup k v.executions ≡ some x → x.call_id ≡ k

pub quiet-none :
    (k : Text) (b : Block)
    → is_plain b ≡ true
    → (call_reports_of k (value (some b)) ≡ 0) × (result_reports_of k (value (some b)) ≡ 0)
quiet-none k (tool_group _ _) h = cc
quiet-none k (tool_result _ _) h = cc
quiet-none k b h = (refl, refl)

pub prose_plain : (b : Block) → is_prose b ≡ true → is_plain b ≡ true
prose_plain (text_chunk _ _) h = cc
prose_plain (tool_group _ _) h = cc
prose_plain (tool_result _ _) h = cc
prose_plain b h = refl

pub silent :
    (s : BlockState) (b : Block)
    → ((k : Text)
        → (call_reports_of k (value (some b)) ≡ 0) × (result_reports_of k (value (some b)) ≡ 0))
    → At Reported s
    → At Reported (put s b)
unfolding put emit
silent s b q h = record {
  calls = λ k. omega (
    arith,
    h.calls k,
    (q k).0,
    total-handed (call_reports_of k) s.stopped s.out (value (some b)),
  );
  results = λ k. omega (
    arith,
    h.results k,
    (q k).1,
    total-handed (result_reports_of k) s.stopped s.out (value (some b)),
  );
  known = h.known;
}

pub chunk-Reported :
    (s : BlockState) (c rest : Text)
    → At Reported s
    → At Reported (record (put s (text_chunk s.ctx c)) { in_text = rest })
chunk-Reported s c rest h =
    let g : At Reported (put s (text_chunk s.ctx c)) =
      silent s (text_chunk s.ctx c) (λ k. (refl, refl)) h in
    record { calls = g.calls; results = g.results; known = g.known }

abbrev pub Still : BlockState → Type 0
Still = At Reported
