-- ===== src/Chat/Loop.antt =====
-- Chat.drive: the prompt is posted once the subscription is live, and then the events are read
-- until the turn ends.
use omnigent_go_sdk.Prelude.{
  ◌⊎◌, inl, inr, false, not, ◌||◌, ◌&&◌, List, [], ◌∷◌, Option, none, some, if◌then◌else◌, is_empty,
}
use omnigent_go_sdk.Prelude.Text.{Text}
use omnigent_go_sdk.Errors.{
  Err, turn_incomplete, input_denied, sanitize_for_error, max_error_field_runes,
}
use omnigent_go_sdk.Wire.{Event}
use omnigent_go_sdk.Sequence.{Step, value, failure, Consumer}
use omnigent_go_sdk.Turn.{TurnOptions, new_turn_tracker, anchor_on, ended}
use omnigent_go_sdk.Chat.{EventAccepted, World, TurnRun, emit, report, track_run}
use omnigent_go_sdk.Chat.Sides.{act}

unfoldable pub anchor_of : EventAccepted → Text
anchor_of accepted = if is_empty accepted.item_id then accepted.pending_id else accepted.item_id

unfoldable pub new_run : World → TurnOptions → Consumer Event → TurnRun
new_run world opts yield = record {
  tracker = new_turn_tracker opts world.session_id;
  yield = yield;
  out = [];
  stopped = false;
  dispatched = [];
  response_id = [];
  unfinishable = false;
  announced = [];
  effects = [];
}

abbrev pub report_failure : TurnRun → Option Err → TurnRun
report_failure run none = run
report_failure run (some err) = report run err

-- A turn that has not ended is reported as one.
unfoldable pub conclude_turn : TurnRun → TurnRun
unfolding report ended
conclude_turn run =
    if not (ended run.tracker) && not run.stopped && not run.unfinishable
    then report run turn_incomplete
    else run

-- The event is tracked and handed over.
unfoldable pub pass_on : TurnRun → Event → TurnRun
unfolding track_run emit
pass_on run e = emit (track_run run e) (value (some e))

-- The loop over the steps of the stream.
unfoldable pub read_turn : World → TurnRun → List (Step Event) → TurnRun
unfolding pass_on act conclude_turn report ended emit
read_turn world run [] = conclude_turn run
read_turn world run (failure _ err ∷ steps) = report run err
read_turn world run (value none ∷ steps) =
    let passed = emit run (value none) in
    let rest = read_turn world passed steps in
    if passed.stopped
    then passed
    else if ended passed.tracker
    then report_failure passed passed.tracker.failure
    else rest
read_turn world run (value (some e) ∷ steps) =
    let passed = pass_on run e in
    let acted = act world passed e in
    let rest = read_turn world acted steps in
    if passed.stopped
    then passed
    else if acted.stopped || acted.unfinishable
    then acted
    else if ended acted.tracker
    then report_failure acted acted.tracker.failure
    else rest

-- The hook that posts the prompt: its error ends the stream before the first event.
unfoldable pub on_subscribed : TurnRun → Err ⊎ EventAccepted → Err ⊎ TurnRun
unfolding anchor_of
on_subscribed run (inl err) = inl err
on_subscribed run (inr accepted) =
    if accepted.denied
    then inl (input_denied (sanitize_for_error accepted.reason max_error_field_runes))
    else inr (record run { tracker = anchor_on run.tracker (anchor_of accepted) })

unfoldable pub read_subscribed : World → TurnRun → Err ⊎ TurnRun → List (Step Event) → TurnRun
unfolding read_turn report
read_subscribed world run (inl err) steps = report run err
read_subscribed world run (inr anchored) steps = read_turn world anchored steps

-- A whole turn on a subscription that opens, with the server's answer to the prompt and the steps
-- that the stream then hands over.
unfoldable pub drive :
    World → TurnOptions → Consumer Event → Err ⊎ EventAccepted → List (Step Event) → TurnRun
unfolding new_run on_subscribed read_subscribed
drive world opts yield answer steps =
    let run = new_run world opts yield in read_subscribed world run (on_subscribed run answer) steps
