-- ===== src/Listing/Steps.antt =====
-- The walk for a caller that reads to the end, page by page, and what it has handed on.
use omnigent_go_sdk.Prelude.{
  ℕ, suc, ◌≡◌, refl, ap, ◌∙◌, ◌⊎◌, inl, inr, Bool, true, false, ◌||◌, List, [], ◌∷◌, ◌++◌,
  append-nil, append_assoc, none, some, if◌then◌else◌, arith,
}
use omnigent_go_sdk.Prelude.Text.{Text}
use omnigent_go_sdk.Prelude.Maps.{TextSet, add}
use omnigent_go_sdk.Errors.{Err}
use omnigent_go_sdk.Sequence.{Step, value, failure, Consumer}
use omnigent_go_sdk.Listing.{
  Page, Fetch, Walk, next_of, hand, hand_all, resume, go_on, receive, walk,
}

module _ {ℓ} {A : Type ℓ} where
  -- The items among the steps, and whether an error is among them.
  abbrev pub items : List (Step A) → List A
  items [] = []
  items (value (some x) ∷ steps) = x ∷ items steps
  items (_ ∷ steps) = items steps

  abbrev pub failed : List (Step A) → Bool
  failed [] = false
  failed (failure _ _ ∷ steps) = true
  failed (_ ∷ steps) = failed steps

  -- The caller's loop never stops.
  abbrev pub ReadsAll : Consumer A → Type ℓ
  ReadsAll yield = (out : List (Step A)) → yield out ≡ true

  abbrev pub going : Consumer A → List (Step A) → List Text → Walk A
  going yield out asked = record { yield = yield; out = out; stopped = false; asked = asked }

  abbrev pub values : List A → List (Step A)
  values [] = []
  values (x ∷ xs) = value (some x) ∷ values xs

  pub hand-going :
      (yield : Consumer A) (out : List (Step A)) (asked : List Text) (step : Step A)
      → ReadsAll yield
      → hand (going yield out asked) step ≡ going yield (out ++ step ∷ []) asked
  unfolding hand
  hand-going yield out asked step reads = rw (reads (out ++ step ∷ [])) refl

  pub hand_all-going :
      (yield : Consumer A) (out : List (Step A)) (asked : List Text) (xs : List A)
      → ReadsAll yield
      → hand_all (going yield out asked) xs ≡ going yield (out ++ values xs) asked
  unfolding hand_all
  hand_all-going yield out asked [] reads = rw append-nil refl
  hand_all-going yield out asked (x ∷ xs) reads =
      ap (λ (w : Walk A). if w.stopped then w else hand_all w xs)
        (hand-going yield out asked (value (some x)) reads)
      ∙ hand_all-going yield (out ++ value (some x) ∷ []) asked xs reads
      ∙ ap (λ (o : List (Step A)). going yield o asked)
          (append_assoc out (value (some x) ∷ []) (values xs))

  pub walk-page :
      (fetch : Fetch A) (left n : ℕ) (c : Text) (seen : TextSet) (p : Page A) (yield : Consumer A)
      (out : List (Step A)) (asked : List Text)
      → ReadsAll yield
      → fetch n c ≡ inr p
      → walk fetch (suc left) n c seen (going yield out asked)
        ≡ resume
            (λ k.
              walk fetch left
                (suc n)
                k
                (add k seen)
                (going yield (out ++ values p.data_of) (c ∷ asked)))
            (going yield (out ++ values p.data_of) (c ∷ asked))
            (next_of n seen p)
  unfolding walk receive go_on
  walk-page fetch left n c seen p yield out asked reads e =
      let again = λ (w : Walk A) (k : Text). walk fetch left (suc n) k (add k seen) w in
      ap (receive again n seen (going yield out (c ∷ asked))) e
      ∙ ap (λ (w : Walk A). go_on (again w) w w.stopped (next_of n seen p))
          (hand_all-going yield out (c ∷ asked) p.data_of reads)

  pub walk-error :
      (fetch : Fetch A) (left n : ℕ) (c : Text) (seen : TextSet) (err : Err) (yield : Consumer A)
      (out : List (Step A)) (asked : List Text)
      → ReadsAll yield
      → fetch n c ≡ inl err
      → (walk fetch (suc left) n c seen (going yield out asked)).out ≡ out ++ failure none err ∷ []
  unfolding walk receive
  walk-error fetch left n c seen err yield out asked reads e =
      let again = λ (w : Walk A) (k : Text). walk fetch left (suc n) k (add k seen) w in
      ap (λ (o : Err ⊎ Page A). (receive again n seen (going yield out (c ∷ asked)) o).out) e
      ∙ ap (λ (w : Walk A). w.out) (hand-going yield out (c ∷ asked) (failure none err) reads)

  items-append : (xs ys : List (Step A)) → items (xs ++ ys) ≡ items xs ++ items ys
  items-append [] ys = refl
  items-append (value (some x) ∷ xs) ys = ap (λ (r : List A). x ∷ r) (items-append xs ys)
  items-append (value none ∷ xs) ys = items-append xs ys
  items-append (failure _ _ ∷ xs) ys = items-append xs ys

  failed-append : (xs ys : List (Step A)) → failed (xs ++ ys) ≡ (failed xs || failed ys)
  failed-append [] ys = refl
  failed-append (value _ ∷ xs) ys = failed-append xs ys
  failed-append (failure _ _ ∷ xs) ys = refl

  items-values : (xs : List A) → items (values xs) ≡ xs
  items-values [] = refl
  items-values (x ∷ xs) = ap (λ (r : List A). x ∷ r) (items-values xs)

  failed-values : (xs : List A) → failed (values xs) ≡ false
  failed-values [] = refl
  failed-values (x ∷ xs) = failed-values xs

  pub shown : (out : List (Step A)) (xs : List A) → items (out ++ values xs) ≡ items out ++ xs
  shown out xs =
      items-append out (values xs) ∙ ap (λ (r : List A). items out ++ r) (items-values xs)

  pub an_error : (out : List (Step A)) (err : Err) → failed (out ++ failure none err ∷ []) ≡ true
  an_error out err = ground (arith, failed-append out (failure none err ∷ []))

  pub still_quiet : (out : List (Step A)) (xs : List A) → failed (out ++ values xs) ≡ failed out
  still_quiet out xs = ground (arith, failed-append out (values xs), failed-values xs)
