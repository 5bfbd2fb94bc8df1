-- ===== src/Sequence.antt =====
-- iter.Seq2 of Go: a sequence of values and errors that is pushed to a caller's loop.
use omnigent_go_sdk.Prelude.{
  Bool, true, false, not, ◌||◌, List, [], ◌∷◌, ◌++◌, Option, if◌then◌else◌,
}
use omnigent_go_sdk.Errors.{Err}

-- What a sequence hands to `yield`: a value, which may be nil, or an error beside one.
pub data Step {ℓ} (A : Type ℓ) : Type ℓ where
  value : Option A → Step A
  failure : Option A → Err → Step A

-- How a caller's loop answers what it has been handed, the last step included: go on or stop.
abbrev pub Consumer {ℓ} : Type ℓ → Type ℓ
Consumer A = List (Step A) → Bool

-- What `yield` has been handed after one more step, which a caller that stopped is not handed.
abbrev pub handed {ℓ} : {A : Type ℓ} → Bool → List (Step A) → Step A → List (Step A)
handed stopped out step = if stopped then out else out ++ step ∷ []

-- What a caller may have been handed, and whether it has stopped: each step is offered to a caller
-- that has not stopped, whose answer decides whether another may be.
pub data Offered {ℓ} {A : Type ℓ} (yield : Consumer A) : List (Step A) → Bool → Type ℓ where
  nothing : Offered yield [] false
  one :
      (out : List (Step A)) (step : Step A)
      → Offered yield out false
      → Offered yield (out ++ step ∷ []) (not (yield (out ++ step ∷ [])))

-- One more step, where the caller has not stopped.
pub offer {ℓ} :
    {A : Type ℓ} (yield : Consumer A) (out : List (Step A)) (stopped : Bool) (step : Step A)
    → Offered yield out stopped
    → Offered yield (handed stopped out step) (stopped || not (yield (handed stopped out step)))
offer yield out true step h = h
offer yield out false step h = one out step h
