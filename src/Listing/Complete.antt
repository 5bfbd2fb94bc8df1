-- ===== src/Listing/Complete.antt =====
-- list.go: when a listing ends without an error.
use omnigent_go_sdk.Prelude.{
  ℕ, zero, suc, ◌≡◌, refl, sym, ap, ◌∙◌, subst, ◌⊎◌, inl, inr, ◌↔◌, true, false, true≢false, not,
  List, [], ◌∷◌, ◌++◌, append_assoc, none, is_empty, if_intro, arith,
}
use omnigent_go_sdk.Prelude.Text.{Text}
use omnigent_go_sdk.Prelude.Maps.{TextSet, member, add}
use omnigent_go_sdk.Errors.{Err}
use omnigent_go_sdk.Sequence.{Step, failure, Consumer}
use omnigent_go_sdk.Listing.{
  Page, Fetch, Walk, Next, finished, cut_short, follow, next_of, hand, resume, walk, page_seq,
  max_listing_pages,
}
use omnigent_go_sdk.Listing.Steps.{
  items, failed, ReadsAll, going, values, hand-going, walk-page, walk-error, shown, an_error,
  still_quiet,
}

module _ {ℓ} {A : Type ℓ} where
  -- The pages that the server answers from the n-th request on, each asked for with the cursor of
  -- the one before, hold the items and end with a page after which there are no more; each other
  -- page has an item and a cursor that was not followed before, and there are at most `left` pages.
  pub data Complete (fetch : Fetch A) : (left n : ℕ) → Text → TextSet → List A → Type ℓ where
    last_page :
        (left n : ℕ) (c : Text) (seen : TextSet) (p : Page A)
        → fetch n c ≡ inr p
        → p.has_more ≡ false
        → Complete fetch (suc left) n c seen p.data_of
    page_before :
        (left n : ℕ) (c : Text) (seen : TextSet) (p : Page A) (xs : List A)
        → fetch n c ≡ inr p
        → p.has_more ≡ true
        → is_empty p.data_of ≡ false
        → is_empty p.last_id ≡ false
        → member p.last_id seen ≡ false
        → Complete fetch left (suc n) p.last_id (add p.last_id seen) xs
        → Complete fetch (suc left) n c seen (p.data_of ++ xs)

  -- Why a page is the last, or is followed, or ends the walk with an error.
  data Verdict (n : ℕ) (seen : TextSet) (p : Page A) : Next → Type ℓ where
    no_more : p.has_more ≡ false → Verdict n seen p finished
    cut : (err : Err) → Verdict n seen p (cut_short err)
    goes_on :
        p.has_more ≡ true
        → is_empty p.data_of ≡ false
        → is_empty p.last_id ≡ false
        → member p.last_id seen ≡ false
        → Verdict n seen p (follow p.last_id)

  verdict : (n : ℕ) (seen : TextSet) (p : Page A) → Verdict n seen p (next_of n seen p)
  unfolding next_of
  verdict n seen p =
      if_intro (Verdict n seen p) (not p.has_more) (λ h. no_more (ground (arith, h)))
        (λ more.
          if_intro (Verdict n seen p) (is_empty p.data_of) (λ _. cut _)
            (λ full.
              if_intro (Verdict n seen p) (is_empty p.last_id) (λ _. cut _)
                (λ named.
                  if_intro (Verdict n seen p) (member p.last_id seen) (λ _. cut _)
                    (λ fresh. goes_on (ground (arith, more)) full named fresh))))

  module _ (fetch : Fetch A) (yield : Consumer A) (reads : ReadsAll yield) where
    -- The rest of a walk that goes from the cursor.
    abbrev rest : (left n : ℕ) → Text → TextSet → List (Step A) → List Text → Walk A
    rest left n c seen out asked = walk fetch left n c seen (going yield out asked)

    -- After the page: the rest of the walk, where it goes on.
    abbrev after :
        (left n : ℕ) → Text → TextSet → Page A → List (Step A) → List Text → Next → Walk A
    after left n c seen p out asked next =
        let out' = out ++ values p.data_of in
        resume (λ k. rest left (suc n) k (add k seen) out' (c ∷ asked))
          (going yield out' (c ∷ asked)) next

    -- Where the walk ended without an error, it has handed on a complete rest of the listing.
    abbrev Quiet : (left n : ℕ) → Text → TextSet → List (Step A) → Walk A → Type ℓ
    Quiet left n c seen out w =
        failed w.out ≡ false
        → (xs : List A) × Complete fetch left n c seen xs × (items w.out ≡ items out ++ xs)

    abbrev AllQuiet : ℕ → Type ℓ
    AllQuiet left =
        (n : ℕ) (c : Text) (seen : TextSet) (out : List (Step A)) (asked : List Text)
        → Quiet left n c seen out (rest left n c seen out asked)

    noisy :
        (left n : ℕ) (c : Text) (seen : TextSet) (out before : List (Step A)) (err : Err)
        (w : Walk A)
        → w.out ≡ before ++ failure none err ∷ []
        → Quiet left n c seen out w
    noisy left n c seen out before err w e q =
        absurd (true≢false (sym (an_error before err) ∙ ap failed (sym e) ∙ q))

    Quiet-next :
        (left n : ℕ) (c : Text) (seen : TextSet) (p : Page A) (out : List (Step A))
        (asked : List Text) (next : Next)
        → AllQuiet left
        → fetch n c ≡ inr p
        → Verdict n seen p next
        → Quiet (suc left) n c seen out (after left n c seen p out asked next)
    unfolding resume
    Quiet-next left n c seen p out asked _ ih e (no_more h) q =
        (p.data_of, last_page left n c seen p e h, shown out p.data_of)
    Quiet-next left n c seen p out asked _ ih e (cut err) q =
        noisy (suc left) n c seen out (out ++ values p.data_of) err
          (hand (going yield (out ++ values p.data_of) (c ∷ asked)) (failure none err))
          (ap (λ (w : Walk A). w.out)
            (hand-going yield (out ++ values p.data_of) (c ∷ asked) (failure none err) reads))
          q
    Quiet-next left n c seen p out asked _ ih e (goes_on more full named fresh) q =
        let (xs, done, i) =
          ih (suc n) p.last_id (add p.last_id seen) (out ++ values p.data_of) (c ∷ asked) q in
        (
          p.data_of ++ xs,
          page_before left n c seen p xs e more full named fresh done,
          i
              ∙ ap (λ (r : List A). r ++ xs) (shown out p.data_of)
              ∙ append_assoc (items out) p.data_of xs,
        )

    Quiet-answer :
        (left n : ℕ) (c : Text) (seen : TextSet) (out : List (Step A)) (asked : List Text)
        (answer : Err ⊎ Page A)
        → AllQuiet left
        → fetch n c ≡ answer
        → Quiet (suc left) n c seen out (rest (suc left) n c seen out asked)
    Quiet-answer left n c seen out asked (inl err) ih e =
        noisy (suc left) n c seen out out err (rest (suc left) n c seen out asked)
          (walk-error fetch left n c seen err yield out asked reads e)
    Quiet-answer left n c seen out asked (inr p) ih e =
        subst (Quiet (suc left) n c seen out)
          (sym (walk-page fetch left n c seen p yield out asked reads e))
          (Quiet-next left n c seen p out asked (next_of n seen p) ih e (verdict n seen p))

    walk-Quiet : (left : ℕ) → AllQuiet left
    unfolding walk
    walk-Quiet zero n c seen out asked =
        noisy zero n c seen out out _ (rest zero n c seen out asked)
          (ap (λ (w : Walk A). w.out) (hand-going yield out asked _ reads))
    walk-Quiet (suc left) n c seen out asked =
        Quiet-answer left n c seen out asked (fetch n c) (walk-Quiet left) refl

    -- A complete listing is walked without an error.
    follows :
        (n : ℕ) (seen : TextSet) (p : Page A)
        → p.has_more ≡ true
        → is_empty p.data_of ≡ false
        → is_empty p.last_id ≡ false
        → member p.last_id seen ≡ false
        → next_of n seen p ≡ follow p.last_id
    unfolding next_of
    follows n seen p more full named fresh = ground (arith, more, full, named, fresh)

    finishes :
        (n : ℕ) (seen : TextSet) (p : Page A) → p.has_more ≡ false → next_of n seen p ≡ finished
    unfolding next_of
    finishes n seen p h = ground (arith, h)

    -- The items were handed on after what was, without an error.
    abbrev Handed : List (Step A) → List A → Walk A → Type ℓ
    Handed out xs w = (failed w.out ≡ failed out) × (items w.out ≡ items out ++ xs)

    by_page :
        (left n : ℕ) (c : Text) (seen : TextSet) (p : Page A) (xs : List A) (out : List (Step A))
        (asked : List Text) (next : Next)
        → fetch n c ≡ inr p
        → next_of n seen p ≡ next
        → Handed out xs (after left n c seen p out asked next)
        → Handed out xs (rest (suc left) n c seen out asked)
    by_page left n c seen p xs out asked next e o = subst (Handed out xs) (
        sym (
          walk-page fetch left n c seen p yield out asked reads e
          ∙ ap (after left n c seen p out asked) o))

    walk-Complete :
        (left n : ℕ) (c : Text) (seen : TextSet) (xs : List A) (out : List (Step A))
        (asked : List Text)
        → Complete fetch left n c seen xs
        → Handed out xs (rest left n c seen out asked)
    unfolding resume
    walk-Complete _ n c seen _ out asked (last_page left _ _ _ p e h) =
        by_page left n c seen p p.data_of out asked finished e (finishes n seen p h)
          (still_quiet out p.data_of, shown out p.data_of)
    walk-Complete _ n c seen _ out asked
          (page_before left _ _ _ p xs e more full named fresh done) =
        let out' : List (Step A) = out ++ values p.data_of in
        let (f, i) =
          walk-Complete left (suc n) p.last_id (add p.last_id seen) xs out' (c ∷ asked) done in
        by_page left n c seen p (p.data_of ++ xs) out asked (follow p.last_id) e
          (follows n seen p more full named fresh)
          (
            f ∙ still_quiet out p.data_of,
            i
                ∙ ap (λ (r : List A). r ++ xs) (shown out p.data_of)
                ∙ append_assoc (items out) p.data_of xs,
          )

-- For a caller that reads to the end, and whatever the server answers: the listing is handed on
-- without an error if and only if its items are complete: they are those of the pages from the
-- first one to one that says that there are no more, each asked for with the cursor of the one
-- before, where each page but the last has an item and a new cursor, and there are at most 10000
-- pages.
pub quiet_listing {ℓ} :
    {A : Type ℓ} (fetch : Fetch A) (yield : Consumer A)
    → ReadsAll yield
    → (failed (page_seq fetch yield).out ≡ false)
      ↔ Complete fetch max_listing_pages 0 [] [] (items (page_seq fetch yield).out)
unfolding page_seq
quiet_listing fetch yield reads = (
  λ q.
      let (xs, done, i) = walk-Quiet fetch yield reads max_listing_pages 0 [] [] [] [] q in
      subst (Complete fetch max_listing_pages 0 [] []) (sym i) done,
  λ done.
      (walk-Complete fetch yield reads max_listing_pages 0 [] [] (items (page_seq fetch yield).out)
        [] [] done).0,
)
