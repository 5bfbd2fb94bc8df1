-- ===== src/Chat/Examples.antt =====
-- One turn with a tool call that is delivered twice, and an approval.
use omnigent_go_sdk.Prelude.{◌≡◌, refl, inr, true, false, none, some, List, [], ◌∷◌}
use omnigent_go_sdk.Prelude.Text.{Text, codes, same}
use omnigent_go_sdk.Prelude.Int.{pos}
use omnigent_go_sdk.Wire.{
  str, Fields, end, field, ElicitationRequest, Event, input_consumed, output_item_done,
  elicitation_request, idle, status_edge,
}
use omnigent_go_sdk.Sequence.{Step, value, Consumer, Offered}
use omnigent_go_sdk.Turn.{
  TurnOptions, on_idle_status, new_turn_tracker, anchor_on, ended, track, track_until,
}
use omnigent_go_sdk.Tool.{ToolRegistry, answered}
use omnigent_go_sdk.Chat.{completed, decided, EventAccepted, World, emit, report, track_run}
use omnigent_go_sdk.Chat.Loop.{
  anchor_of, drive, new_run, on_subscribed, read_subscribed, read_turn, pass_on, conclude_turn,
}
use omnigent_go_sdk.Chat.Sides.{act}
use omnigent_go_sdk.Chat.Rules.{runs, posts, Lawful}
use omnigent_go_sdk.Chat.Lawful.{turn_is_Lawful}
use omnigent_go_sdk.Chat.Civil.{stopped_reader}
use omnigent_go_sdk.Chat.Closing.{events, Closed, turn_closing}

abbrev accepted : EventAccepted
accepted = record { item_id = 3 ∷ []; pending_id = []; denied = false; reason = [] }

abbrev registry : ToolRegistry
registry = record { tools = (2 ∷ [], λ _ _. answered (9 ∷ [])) ∷ []; schemas = [] }

abbrev world : World
world = record {
  session_id = 7 ∷ [];
  max_tool_calls = pos 1;
  tools = some registry;
  codec = record {
    unmarshal = λ _. none;
    marshal = λ _. none;
    sprint = λ _. [];
    sprint_map = λ _. [];
  };
  hooks = λ _ _. completed;
  on_elicitation = λ _ _. decided true;
  accepts_output = λ _ _ _. inr accepted;
  accepts_verdict = λ _ _ _ _. none;
}

abbrev rule : TurnOptions
rule = record { end = on_idle_status; prior_response_ids = λ _. false }

abbrev keen : Consumer Event
keen _ = true

abbrev call : Fields
call = field (codes "type") (str (codes "function_call")) (
    field (codes "call_id") (str (1 ∷ [])) (
      field (codes "name") (str (2 ∷ []))
        (field (codes "status") (str (codes "action_required")) end)))

abbrev approval : ElicitationRequest
approval = record {
  elicitation_id = 4 ∷ [];
  target_session_id = none;
  message = [];
  requested_schema = none;
  extra = end;
  mode = none;
  url = none;
  phase = none;
  policy_name = none;
  content_preview = none;
}

abbrev script : List (Step Event)
script =
    value (some (input_consumed (record { item_id = 3 ∷ []; cleared_pending_id = none })))
    ∷ value (some (output_item_done call))
    ∷ value (some (output_item_done call))
    ∷ value (some (elicitation_request approval))
    ∷ value (
        some (
          status_edge (record {
            conversation_id = 7 ∷ [];
            status = idle;
            response_id = some (5 ∷ []);
            error = none;
          })))
    ∷ []

turn_is_Lawful_example :
    Lawful world (drive world rule keen (inr accepted) script).effects
    × ((k : Text)
        → posts k (drive world rule keen (inr accepted) script).effects
          ≡ runs k (drive world rule keen (inr accepted) script).effects)
turn_is_Lawful_example = turn_is_Lawful world rule keen (inr accepted) script refl

abbrev hasty : Consumer Event
hasty _ = false

stopped_reader_example :
    Offered hasty
      (drive world rule hasty (inr accepted) script).out
      (drive world rule hasty (inr accepted) script).stopped
stopped_reader_example = stopped_reader world rule hasty (inr accepted) script

-- The echo alone: the stream is over before the turn is.
abbrev cut_off : List Event
cut_off = input_consumed (record { item_id = 3 ∷ []; cleared_pending_id = none }) ∷ []

cut_off_finishable : (drive world rule keen (inr accepted) (events cut_off)).unfinishable ≡ false
unfolding drive new_run on_subscribed read_subscribed read_turn pass_on conclude_turn act emit
    report track_run ended track anchor_on same new_turn_tracker
cut_off_finishable = refl

turn_closing_example :
    ((drive world rule keen (inr accepted) (events cut_off)).tracker
      ≡ track_until
          (anchor_on (new_turn_tracker rule world.session_id) (anchor_of accepted))
          cut_off)
    × Closed (drive world rule keen (inr accepted) (events cut_off))
turn_closing_example =
    turn_closing world rule keen accepted cut_off (λ _. refl) refl cut_off_finishable
