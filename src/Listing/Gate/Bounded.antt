-- ===== src/Listing/Gate/Bounded.antt =====
-- list.go: the requests that a gate lets through.
use omnigent_go_sdk.Prelude.{
  ℕ, suc, ◌+◌, ◌≤◌, ◌≡◌, refl, sym, ◌∙◌, Bool, List, [], ◌∷◌, ◌++◌, arith,
}
use omnigent_go_sdk.Listing.Gate.{
  Fetching, waiting, in_flight, fetched, cancelled_out, Gate, acquire, release, GateMove, arrives,
  ends_context, takes, gives_up, returns, GateRun, here, further, open_gate,
}

-- The requests in flight.
abbrev pub flying : List Fetching → ℕ
flying [] = 0
flying (in_flight ∷ calls) = suc (flying calls)
flying (waiting ∷ calls) = flying calls
flying (fetched ∷ calls) = flying calls
flying (cancelled_out ∷ calls) = flying calls

flying-append : (xs ys : List Fetching) → flying (xs ++ ys) ≡ flying xs + flying ys
flying-append [] ys = omega arith
flying-append (in_flight ∷ xs) ys = omega (arith, flying-append xs ys)
flying-append (waiting ∷ xs) ys = flying-append xs ys
flying-append (fetched ∷ xs) ys = flying-append xs ys
flying-append (cancelled_out ∷ xs) ys = flying-append xs ys

-- A token is held for each request in flight, and no more than there are.
pub record Held (capacity : ℕ) (g : Gate) : Type 0 where
  pub same_capacity : g.capacity ≡ capacity
  pub one_each : flying g.calls ≡ g.taken
  pub bounded : flying g.calls ≤ capacity

GateMove-Held : (capacity : ℕ) (g h : Gate) → Held capacity g → GateMove g h → Held capacity h
unfolding acquire release
GateMove-Held capacity _ _ k (arrives g) = record {
  same_capacity = k.same_capacity;
  one_each = k.one_each;
  bounded = k.bounded;
}
GateMove-Held capacity _ _ k (ends_context g) = record {
  same_capacity = k.same_capacity;
  one_each = k.one_each;
  bounded = k.bounded;
}
GateMove-Held capacity _ _ k (takes g before behind room) = record {
  same_capacity = k.same_capacity;
  one_each = omega (
    arith,
    k.one_each,
    flying-append before (waiting ∷ behind),
    flying-append before (in_flight ∷ behind),
  );
  bounded = omega (
    arith,
    k.one_each,
    room,
    k.same_capacity,
    flying-append before (waiting ∷ behind),
    flying-append before (in_flight ∷ behind),
  );
}
GateMove-Held capacity _ _ k (gives_up g before behind done) = record {
  same_capacity = k.same_capacity;
  one_each =
      flying-append before (cancelled_out ∷ behind)
      ∙ sym (flying-append before (waiting ∷ behind))
      ∙ k.one_each;
  bounded = omega (
    arith,
    k.bounded,
    flying-append before (waiting ∷ behind),
    flying-append before (cancelled_out ∷ behind),
  );
}
GateMove-Held capacity _ _ k (returns g before behind) = record {
  same_capacity = k.same_capacity;
  one_each = omega (
    arith,
    k.one_each,
    flying-append before (in_flight ∷ behind),
    flying-append before (fetched ∷ behind),
  );
  bounded = omega (
    arith,
    k.bounded,
    flying-append before (in_flight ∷ behind),
    flying-append before (fetched ∷ behind),
  );
}

-- However the fetches that share a gate interleave, cancellation included: as many tokens are held as
-- requests are in flight, and these are never more than the gate has tokens.
pub gate-Held :
    (capacity : ℕ) (done : Bool) (g : Gate) → GateRun (open_gate capacity done) g → Held capacity g
gate-Held capacity done _ here = record {
  same_capacity = refl;
  one_each = refl;
  bounded = omega arith;
}
gate-Held capacity done _ (further g h run move) =
    GateMove-Held capacity g h (gate-Held capacity done g run) move
