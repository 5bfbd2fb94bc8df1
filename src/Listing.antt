-- ===== src/Listing.antt =====
-- list.go: the walk over the pages of a listing (`pageSeq`).
pub mod Steps
pub mod Gate
pub mod Complete
pub mod Bounded
mod Examples
use omnigent_go_sdk.Prelude.{
  ℕ, zero, suc, ◌+◌, ◌⊎◌, inl, inr, Bool, true, false, not, ◌||◌, List, [], ◌∷◌, ◌++◌, Option, none,
  some, if◌then◌else◌, is_empty,
}
use omnigent_go_sdk.Prelude.Text.{Text, codes, decimal}
use omnigent_go_sdk.Prelude.Maps.{TextSet, member, add}
use omnigent_go_sdk.Errors.{Err, listing_unbounded}
use omnigent_go_sdk.Sequence.{Step, value, failure, Consumer, handed}

pub record Page {ℓ} (A : Type ℓ) : Type ℓ where
  pub data_of : List A
  pub first_id : Text
  pub last_id : Text
  pub has_more : Bool

-- What the server answers to the n-th request of the walk, which asks with the cursor.
abbrev pub Fetch {ℓ} : Type ℓ → Type ℓ
Fetch A = ℕ → (cursor : Text) → Err ⊎ Page A

pub record Walk {ℓ} (A : Type ℓ) : Type ℓ where
  pub yield : Consumer A
  -- what `yield` was handed, in order
  pub out : List (Step A)
  pub stopped : Bool
  -- the cursors that were asked for, the last one first
  pub asked : List Text

abbrev pub max_listing_pages : ℕ
max_listing_pages = 10000

-- What a page leaves to do.
pub data Next : Type 0 where
  finished : Next
  cut_short : Err → Next
  follow : Text → Next

unfoldable pub next_of {ℓ} : {A : Type ℓ} → ℕ → TextSet → Page A → Next
next_of pages seen page =
    if not page.has_more
    then finished
    else if is_empty page.data_of
    then cut_short (
        listing_unbounded
          (codes "page " ++ decimal (suc pages) ++ codes " claimed more while returning nothing"))
    else if is_empty page.last_id
    then cut_short (
        listing_unbounded
          (codes "page " ++ decimal (suc pages) ++ codes " claimed more with no cursor to follow"))
    else if member page.last_id seen
    then cut_short (
        listing_unbounded (
          codes "cursor "
          ++ page.last_id
          ++ codes " repeated after "
          ++ decimal (suc pages)
          ++ codes " pages"))
    else follow page.last_id

module _ {ℓ} {A : Type ℓ} where
  unfoldable pub hand : Walk A → Step A → Walk A
  hand w step =
      let out = handed w.stopped w.out step in
      record w { out = out; stopped = w.stopped || not (w.yield out) }

  -- The loop over a page, which ends with a caller that stops.
  unfoldable pub hand_all : Walk A → List A → Walk A
  unfolding hand
  hand_all w [] = w
  hand_all w (x ∷ xs) =
      let w' = hand w (value (some x)) in
      let rest = hand_all w' xs in if w'.stopped then w' else rest

  -- What follows a page; `again` is the rest of the loop.
  unfoldable pub resume : (Text → Walk A) → Walk A → Next → Walk A
  unfolding hand
  resume again w finished = w
  resume again w (cut_short err) = hand w (failure none err)
  resume again w (follow c) = again c

  -- A caller that stopped ends the loop.
  unfoldable pub go_on : (Text → Walk A) → Walk A → (stopped : Bool) → Next → Walk A
  unfolding resume
  go_on again w true next = w
  go_on again w false next = resume again w next

  -- The answer to one request.
  unfoldable pub receive :
      (Walk A → Text → Walk A) → (pages : ℕ) → TextSet → Walk A → Err ⊎ Page A → Walk A
  unfolding hand hand_all next_of go_on
  receive again pages seen asking (inl err) = hand asking (failure none err)
  receive again pages seen asking (inr page) =
      let handed_on = hand_all asking page.data_of in
      go_on (again handed_on) handed_on handed_on.stopped (next_of pages seen page)

  -- The loop; `left` is how many pages may still be asked for.
  unfoldable pub walk : Fetch A → (left pages : ℕ) → Text → TextSet → Walk A → Walk A
  unfolding hand receive
  walk fetch zero pages cursor seen w = hand w (
      failure none
        (listing_unbounded (codes "stopped after " ++ decimal max_listing_pages ++ codes " pages")))
  walk fetch (suc left) pages cursor seen w =
      receive (λ w' c. walk fetch left (suc pages) c (add c seen) w') pages seen
        (record w { asked = cursor ∷ w.asked }) (fetch pages cursor)

  unfoldable pub page_seq : Fetch A → Consumer A → Walk A
  unfolding walk
  page_seq fetch yield =
      walk fetch max_listing_pages 0 [] []
        (record { yield = yield; out = []; stopped = false; asked = [] })
