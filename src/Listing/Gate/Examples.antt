-- ===== src/Listing/Gate/Examples.antt =====
-- One token and two fetches, of which one is in flight.
use omnigent_go_sdk.Prelude.{ℕ, false, List, [], ◌∷◌, arith}
use omnigent_go_sdk.Listing.Gate.{
  Fetching, waiting, in_flight, Gate, acquire, arrives, takes, GateRun, here, further, open_gate,
}
use omnigent_go_sdk.Listing.Gate.Bounded.{Held, gate-Held}

abbrev one_token : ℕ → List Fetching → Gate
one_token taken calls = record { capacity = 1; taken = taken; done = false; calls = calls }

one_through : GateRun (open_gate 1 false) (one_token 1 (in_flight ∷ waiting ∷ []))
unfolding acquire
one_through =
    further (one_token 0 (waiting ∷ waiting ∷ [])) _
      (further (one_token 0 (waiting ∷ [])) _
        (further (one_token 0 []) _ here (arrives (one_token 0 [])))
        (arrives (one_token 0 (waiting ∷ []))))
      (takes (one_token 0 []) [] (waiting ∷ []) (omega arith))

gate-Held_example : Held 1 (one_token 1 (in_flight ∷ waiting ∷ []))
gate-Held_example = gate-Held 1 false (one_token 1 (in_flight ∷ waiting ∷ [])) one_through
