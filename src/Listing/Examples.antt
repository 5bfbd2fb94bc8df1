-- ===== src/Listing/Examples.antt =====
-- A listing of two pages.
use omnigent_go_sdk.Prelude.{ℕ, zero, suc, ◌≤◌, ◌≡◌, refl, inr, ◌↔◌, true, false, [], ◌∷◌, length}
use omnigent_go_sdk.Sequence.{Consumer}
use omnigent_go_sdk.Listing.{Fetch, page_seq, max_listing_pages}
use omnigent_go_sdk.Listing.Steps.{items, failed}
use omnigent_go_sdk.Listing.Complete.{Complete, quiet_listing}
use omnigent_go_sdk.Listing.Bounded.{Distinct, bounded_listing}

abbrev two_pages : Fetch ℕ
two_pages zero cursor =
    inr (record { data_of = 10 ∷ 11 ∷ []; first_id = 1 ∷ []; last_id = 2 ∷ []; has_more = true })
two_pages (suc n) cursor =
    inr (record { data_of = 12 ∷ []; first_id = 3 ∷ []; last_id = 3 ∷ []; has_more = false })

abbrev keen : Consumer ℕ
keen _ = true

quiet_listing_example :
    (failed (page_seq two_pages keen).out ≡ false)
    ↔ Complete two_pages max_listing_pages 0 [] [] (items (page_seq two_pages keen).out)
quiet_listing_example = quiet_listing two_pages keen (λ _. refl)

bounded_listing_example :
    Distinct (page_seq two_pages keen).asked
    × (length (page_seq two_pages keen).asked ≤ max_listing_pages)
bounded_listing_example = bounded_listing two_pages keen
