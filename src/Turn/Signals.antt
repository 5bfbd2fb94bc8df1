-- ===== src/Turn/Signals.antt =====
-- Which events end a turn, described with no state: the specification of the tracker.
use omnigent_go_sdk.Prelude.{◌≡◌, ◌≢◌, ◌⊎◌, Bool, true, false, none, some, List, [], ◌∷◌}
use omnigent_go_sdk.Prelude.Text.{Text}
use omnigent_go_sdk.Wire.{
  Event, ResponseObject, response_completed, response_cancelled, incomplete, response_failed,
  InputConsumed, input_consumed, StatusEdge, idle, failed, status_edge, Superseded, superseded,
}
use omnigent_go_sdk.Turn.{on_response_lifecycle, TurnOptions}

-- A turn as its reader sees it: the rule, the prior responses, the session and the anchor.
pub record Reading : Type 0 where
  pub options : TurnOptions
  pub session_id : Text
  pub anchor : Text

-- The server's echo of the turn's prompt.
pub data Echoes (r : Reading) : Event → Type 0 where
  by_item : (c : InputConsumed) → r.anchor ≢ [] → c.item_id ≡ r.anchor → Echoes r (input_consumed c)
  by_pending :
      (c : InputConsumed)
      → r.anchor ≢ []
      → c.cleared_pending_id ≡ some r.anchor
      → Echoes r (input_consumed c)

-- The event that ends a turn with the answer of the response `id`. The flag of this and of the
-- next family says that the echo was seen before the event.
pub data Answers (r : Reading) (id : Text) : Bool → Event → Type 0 where
  by_idle :
      (e : StatusEdge)
      → e.status ≡ idle
      → e.conversation_id ≡ r.session_id
      → e.response_id ≡ some id
      → Answers r id true (status_edge e)
  by_completed :
      (o : ResponseObject)
      → r.options.end ≡ on_response_lifecycle
      → o.id ≡ id
      → Answers r id true (response_completed o)

-- A terminal event other than the completed one.
pub data BadTerminal (o : ResponseObject) : Event → Type 0 where
  cancelled : BadTerminal o (response_cancelled o)
  cut_short : BadTerminal o (incomplete o)
  broken : BadTerminal o (response_failed o)

-- The event that ends a turn with no answer.
pub data Faults (r : Reading) : Bool → Event → Type 0 where
  by_session :
      {b : Bool} (e : StatusEdge)
      → e.status ≡ failed
      → (e.conversation_id ≡ []) ⊎ (e.conversation_id ≡ r.session_id)
      → e.response_id ≡ none
      → Faults r b (status_edge e)
  by_response :
      (e : StatusEdge) (id : Text)
      → e.status ≡ failed
      → (e.conversation_id ≡ []) ⊎ (e.conversation_id ≡ r.session_id)
      → e.response_id ≡ some id
      → r.options.prior_response_ids id ≡ false
      → Faults r true (status_edge e)
  by_terminal :
      {e : Event} (o : ResponseObject)
      → BadTerminal o e
      → r.options.end ≡ on_response_lifecycle
      → o.id ≢ []
      → r.options.prior_response_ids o.id ≡ false
      → Faults r true e
  by_superseded :
      {b : Bool} (e : Superseded) → e.conversation_id ≡ r.session_id → Faults r b (superseded e)

-- An event of the family stands among the events, behind the echo where it asks for one.
pub data HappensIn (r : Reading) (E : Bool → Event → Type 0) : Bool → List Event → Type 0 where
  now : {b : Bool} {e : Event} {es : List Event} → E b e → HappensIn r E b (e ∷ es)
  echo :
      {e : Event} {es : List Event}
      → Echoes r e
      → HappensIn r E true es
      → HappensIn r E false (e ∷ es)
  later : {b : Bool} {e : Event} {es : List Event} → HappensIn r E b es → HappensIn r E b (e ∷ es)
