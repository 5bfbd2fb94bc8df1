-- ===== src/Listing/Gate.antt =====
-- list.go: gateFetch, by which the fetches of several listings share a channel of tokens. What a
-- fetch does with the channel is one step, and any fetch may take the next.
pub mod Bounded
mod Examples
use omnigent_go_sdk.Prelude.{ℕ, suc, ◌+◌, ◌-◌, ◌<◌, ◌≡◌, Bool, true, List, [], ◌∷◌, ◌++◌}

-- A call of the gated fetch: in the select, in the fetch that it was handed, or returned, from that
-- fetch or with the error of the context.
pub data Fetching : Type 0 where
  waiting in_flight fetched cancelled_out : Fetching

-- The channel's buffer and how much of it is taken, whether the context is done, and the calls.
pub record Gate : Type 0 where
  pub capacity : ℕ
  pub taken : ℕ
  pub done : Bool
  pub calls : List Fetching

unfoldable pub acquire : Gate → Gate
acquire g = record g { taken = suc g.taken }

-- The deferred receive.
unfoldable pub release : Gate → Gate
release g = record g { taken = g.taken - 1 }

abbrev pub with_calls : Gate → List Fetching → Gate
with_calls g calls = record g { calls = calls }

pub data GateMove : Gate → Gate → Type 0 where
  arrives : (g : Gate) → GateMove g (with_calls g (waiting ∷ g.calls))
  ends_context : (g : Gate) → GateMove g (record g { done = true })
  takes :
      (g : Gate) (before behind : List Fetching)
      → g.taken < g.capacity
      → GateMove
          (with_calls g (before ++ waiting ∷ behind))
          (with_calls (acquire g) (before ++ in_flight ∷ behind))
  gives_up :
      (g : Gate) (before behind : List Fetching)
      → g.done ≡ true
      → GateMove
          (with_calls g (before ++ waiting ∷ behind))
          (with_calls g (before ++ cancelled_out ∷ behind))
  returns :
      (g : Gate) (before behind : List Fetching)
      → GateMove
          (with_calls g (before ++ in_flight ∷ behind))
          (with_calls (release g) (before ++ fetched ∷ behind))

pub data GateRun (start : Gate) : Gate → Type 0 where
  here : GateRun start start
  further : (g h : Gate) → GateRun start g → GateMove g h → GateRun start h

abbrev pub open_gate : (capacity : ℕ) (done : Bool) → Gate
open_gate capacity done = record { capacity = capacity; taken = 0; done = done; calls = [] }
