-- ===== src/Turn/Examples.antt =====
-- One turn under the rule of idle statuses.
use omnigent_go_sdk.Prelude.{◌≡◌, refl, ◌≢◌, ◌⊎◌, ◌↔◌, true, false, none, some, List, [], ◌∷◌}
use omnigent_go_sdk.Prelude.Text.{Text, same}
use omnigent_go_sdk.Wire.{Event, input_consumed, StatusEdge, idle, status_edge}
use omnigent_go_sdk.Turn.{
  on_idle_status, new_turn_tracker, anchor_on, ended, describes_this_session, cross_boundary,
  observe_live_status, observe_edge, observe_status, track, track_until,
}
use omnigent_go_sdk.Turn.Boundary.{foreign_edge_ignored}
use omnigent_go_sdk.Turn.Signals.{Reading, Answers, Faults, HappensIn}
use omnigent_go_sdk.Turn.Ends.{tracker_of, turn_answer, turn_ended_iff}

abbrev this_session : Text
this_session = 7 ∷ []

abbrev a_child : Text
a_child = 8 ∷ []

abbrev the_prompt : Text
the_prompt = 1 ∷ 2 ∷ []

abbrev the_response : Text
the_response = 5 ∷ []

abbrev reading : Reading
reading = record {
  options = record { end = on_idle_status; prior_response_ids = same (4 ∷ []) };
  session_id = this_session;
  anchor = the_prompt;
}

abbrev edge : Text → Text → StatusEdge
edge conversation response = record {
  conversation_id = conversation;
  status = idle;
  response_id = some response;
  error = none;
}

abbrev script : List Event
script =
    status_edge (edge this_session (6 ∷ []))
    ∷ input_consumed (record { item_id = the_prompt; cleared_pending_id = none })
    ∷ status_edge (edge a_child (9 ∷ []))
    ∷ status_edge (edge this_session (4 ∷ []))
    ∷ status_edge (edge this_session the_response)
    ∷ []

-- The edge before the echo, the child's edge and the prior response are passed over.
script_id : (track_until (tracker_of reading) script).id ≡ the_response
unfolding track_until track cross_boundary observe_status observe_edge observe_live_status
    describes_this_session new_turn_tracker anchor_on ended same
script_id = refl

named_response : (track_until (tracker_of reading) script).id ≢ []
unfolding track_until track cross_boundary observe_status observe_edge observe_live_status
    describes_this_session new_turn_tracker anchor_on ended same
named_response e = cc

turn_answer_example :
    HappensIn reading (Answers reading (track_until (tracker_of reading) script).id) false script
    × (reading.options.prior_response_ids (track_until (tracker_of reading) script).id ≡ false)
turn_answer_example = turn_answer reading script named_response

turn_ended_iff_example : (ended (track_until (tracker_of reading) script) ≡ true) ↔ (
    ((id : Text) × (id ≢ [])
      × (reading.options.prior_response_ids id ≡ false)
      × HappensIn reading (Answers reading id) false script)
    ⊎ HappensIn reading (Faults reading) false script)
turn_ended_iff_example = turn_ended_iff reading script

child_named : a_child ≢ []
child_named e = cc

child_elsewhere : a_child ≢ (tracker_of reading).session_id
unfolding anchor_on new_turn_tracker
child_elsewhere e = cc

foreign_edge_example :
    track (tracker_of reading) (status_edge (edge a_child the_response)) ≡ tracker_of reading
foreign_edge_example =
    foreign_edge_ignored (tracker_of reading) (edge a_child the_response) child_named
      child_elsewhere
