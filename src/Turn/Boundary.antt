-- ===== src/Turn/Boundary.antt =====
-- What the tracker leaves alone: its configuration, and all that is not this turn's.
use omnigent_go_sdk.Prelude.{◌≡◌, ◌≢◌, true, some, [], arith}
use omnigent_go_sdk.Prelude.Text.{same_iff}
use omnigent_go_sdk.Errors.{Err}
use omnigent_go_sdk.Wire.{Event, StatusEdge, status_edge}
use omnigent_go_sdk.Turn.{TurnTracker, track}

-- What no event changes: the rule, the prior responses, the session and the anchor.
pub record SameSetup (t u : TurnTracker) : Type 0 where
  pub end : u.end ≡ t.end
  pub prior : u.prior ≡ t.prior
  pub session_id : u.session_id ≡ t.session_id
  pub anchor : u.anchor ≡ t.anchor

pub track-SameSetup : (t : TurnTracker) (e : Event) → SameSetup t (track t e)
unfolding track
track-SameSetup t (status_edge e) = ground arith
track-SameSetup t e = ground arith

-- The boundary is crossed for good, and never with no anchor.
pub track-crossed : (t : TurnTracker) (e : Event) → t.crossed ≡ true → (track t e).crossed ≡ true
unfolding track
track-crossed t (status_edge e) h = ground arith
track-crossed t e h = ground arith

pub track-unanchored :
    (t : TurnTracker) (e : Event) → t.anchor ≡ [] → (track t e).crossed ≡ t.crossed
unfolding track
track-unanchored t (status_edge e) h = ground arith
track-unanchored t e h = ground arith

-- The first fatal signal is kept whatever follows it.
pub track-failure :
    (t : TurnTracker) (e : Event) (err : Err)
    → t.failure ≡ some err
    → (track t e).failure ≡ some err
unfolding track
track-failure t (status_edge e) err h = ground arith
track-failure t e err h = ground arith

-- A status edge, failed or not, changes nothing in the tracker if it names a conversation, and one
-- other than the session that the turn is reading.
pub foreign_edge_ignored :
    (t : TurnTracker) (e : StatusEdge)
    → e.conversation_id ≢ []
    → e.conversation_id ≢ t.session_id
    → track t (status_edge e) ≡ t
unfolding track
foreign_edge_ignored t e named other = ground (arith, same_iff e.conversation_id t.session_id)
