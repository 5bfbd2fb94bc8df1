-- ===== src/Turn.antt =====
-- turn.go: the tracker that decides when one turn has ended, and the part of `turnRun.track` of
-- chat.go that hands it a session's events. A method that writes the tracker returns the new one.
pub mod Boundary
pub mod Signals
pub mod Step
pub mod Ends
mod Examples
use omnigent_go_sdk.Prelude.{
  ℕ, Bool, true, false, not, ◌&&◌, ◌||◌, Option, none, some, List, [], ◌∷◌, ◌++◌, if◌then◌else◌,
  is_empty,
}
use omnigent_go_sdk.Prelude.Text.{Text, codes, same}
use omnigent_go_sdk.Errors.{
  Err, turn_failed, turn_superseded, sanitize_for_error, max_error_field_runes,
  max_request_id_runes,
}
use omnigent_go_sdk.Wire.{
  ErrorDetail, ResponseObject, InputConsumed, SessionStatus, idle, failed, StatusEdge, Superseded,
  Event, input_consumed, status_edge, superseded, response_completed, response_cancelled,
  incomplete, response_failed,
}

pub data TurnEnd : Type 0 where
  on_idle_status on_response_lifecycle : TurnEnd

-- A map to booleans is read as a function, false on a missing key.
pub record TurnOptions : Type 0 where
  pub end : TurnEnd
  pub prior_response_ids : Text → Bool

pub record TurnTracker : Type 0 where
  pub end : TurnEnd
  pub prior : Text → Bool
  pub session_id : Text
  pub anchor : Text
  pub anchor_item : Text
  pub crossed : Bool
  pub id : Text
  pub failed_turn_id : Text
  pub failure : Option Err

unfoldable pub new_turn_tracker : TurnOptions → Text → TurnTracker
new_turn_tracker opts session_id = record {
  end = opts.end;
  prior = opts.prior_response_ids;
  session_id = session_id;
  anchor = [];
  anchor_item = [];
  crossed = false;
  id = [];
  failed_turn_id = [];
  failure = none;
}

unfoldable pub describes_this_session : TurnTracker → Text → Bool
describes_this_session t conversation_id = same conversation_id t.session_id

unfoldable pub could_be_this_session : TurnTracker → Text → Bool
could_be_this_session t conversation_id =
    is_empty conversation_id || same conversation_id t.session_id

unfoldable pub anchor_on : TurnTracker → Text → TurnTracker
anchor_on t identifier = record t { anchor = identifier }

abbrev pub is_some {ℓ} : {A : Type ℓ} → Option A → Bool
is_some none = false
is_some (some a) = true

unfoldable pub ended : TurnTracker → Bool
ended t = not (is_empty t.id) || is_some t.failure

abbrev first_failure : Option Err → Err → Option Err
first_failure none err = some err
first_failure (some old) err = some old

unfoldable pub fail : TurnTracker → Err → TurnTracker
fail t err = record t { failure = first_failure t.failure err }

-- p != nil && *p == t
abbrev names : Option Text → Text → Bool
names none t = false
names (some s) t = same s t

unfoldable pub cross_boundary : TurnTracker → InputConsumed → TurnTracker
cross_boundary t e =
    if is_empty t.anchor
    then t
    else if same e.item_id t.anchor
    then record t { crossed = true; anchor_item = e.item_id }
    else if names e.cleared_pending_id t.anchor
    then record t { crossed = true; anchor_item = e.item_id }
    else t

unfoldable pub status_detail : Option ErrorDetail → Text
status_detail none = codes "the session reported failure, with no detail"
status_detail (some e) =
    let code = sanitize_for_error e.code max_error_field_runes in
    let message = sanitize_for_error e.message max_error_field_runes in
    if is_empty code && is_empty message
    then codes "the session reported failure, with no detail"
    else codes "the session reported failure: " ++ message ++ codes " (" ++ code ++ codes ")"

unfoldable pub observe_failed_status : TurnTracker → StatusEdge → Option Text → TurnTracker
unfolding fail
observe_failed_status t e none = fail t (turn_failed (status_detail e.error))
observe_failed_status t e (some r) =
    if not t.crossed || t.prior r
    then t
    else fail (record t { failed_turn_id = r }) (turn_failed (status_detail e.error))

-- The edges other than failed; the status and the response id are those of the edge.
unfoldable pub observe_live_status : TurnTracker → SessionStatus → Option Text → TurnTracker
observe_live_status t idle (some r) =
    if not t.crossed
    then t
    else if is_empty r
    then t
    else if t.prior r
    then t
    else record t { id = r }
observe_live_status t _ _ = t

unfoldable pub observe_edge : TurnTracker → StatusEdge → SessionStatus → TurnTracker
unfolding could_be_this_session describes_this_session observe_failed_status observe_live_status
observe_edge t e failed =
    if could_be_this_session t e.conversation_id then observe_failed_status t e e.response_id else t
observe_edge t e s =
    if describes_this_session t e.conversation_id then observe_live_status t s e.response_id else t

unfoldable pub observe_status : TurnTracker → StatusEdge → TurnTracker
unfolding observe_edge
observe_status t e = observe_edge t e e.status

abbrev is_lifecycle : TurnEnd → Bool
is_lifecycle on_response_lifecycle = true
is_lifecycle _ = false

abbrev end_or_fail : TurnTracker → Text → Option Err → TurnTracker
unfolding fail
end_or_fail t response_id none = record t { id = response_id }
end_or_fail t response_id (some err) = fail (record t { failed_turn_id = response_id }) err

unfoldable pub observe_response_terminal : TurnTracker → Text → Option Err → TurnTracker
unfolding fail
observe_response_terminal t response_id detail =
    if not (is_lifecycle t.end) || not t.crossed || is_empty response_id || t.prior response_id
    then t
    else end_or_fail t response_id detail

unfoldable pub observe_superseded : TurnTracker → Superseded → TurnTracker
unfolding describes_this_session fail
observe_superseded t e =
    if describes_this_session t e.conversation_id
    then fail t (turn_superseded (sanitize_for_error e.target_conversation_id max_request_id_runes))
    else t

-- responseFailure of chat.go
unfoldable pub response_failure : Option ErrorDetail → Text
response_failure none = codes "the server reported failure, with no detail"
response_failure (some e) =
    sanitize_for_error e.message max_error_field_runes
    ++ codes " ("
    ++ sanitize_for_error e.code max_error_field_runes
    ++ codes ")"

-- What `turnRun.track` does to the tracker.
unfoldable pub track : TurnTracker → Event → TurnTracker
unfolding cross_boundary observe_status observe_superseded observe_response_terminal
track t (input_consumed e) = cross_boundary t e
track t (status_edge e) = observe_status t e
track t (superseded e) = observe_superseded t e
track t (response_completed r) = observe_response_terminal t r.id none
track t (response_cancelled r) =
    observe_response_terminal t r.id (some (turn_failed (codes "the turn was cancelled")))
track t (incomplete r) =
    observe_response_terminal t r.id (some (turn_failed (codes "the response was incomplete")))
track t (response_failed r) =
    observe_response_terminal t r.id (some (turn_failed (response_failure r.error)))
track t _ = t

-- The tracker when the loop of `Chat.drive` stops reading at the end of the turn.
unfoldable pub track_until : TurnTracker → List Event → TurnTracker
unfolding track ended
track_until t [] = t
track_until t (e ∷ es) =
    let t' = track t e in let rest = track_until t' es in if ended t' then t' else rest
