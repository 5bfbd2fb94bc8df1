-- ===== src/Chat/Civil.antt =====
-- chat.go: what a caller of a turn that stops is handed.
use omnigent_go_sdk.Prelude.{
  ◌≡◌, refl, sym, subst, ◌⊎◌, inl, inr, not, ◌||◌, List, [], ◌∷◌, Option, none, some, if_intro,
}
use omnigent_go_sdk.Prelude.Text.{Text}
use omnigent_go_sdk.Errors.{Err}
use omnigent_go_sdk.Wire.{Event, response_created, queued, in_progress}
use omnigent_go_sdk.Sequence.{Step, value, failure, Consumer, handed, Offered, nothing, offer}
use omnigent_go_sdk.Turn.{TurnOptions, ended}
use omnigent_go_sdk.Chat.{EventAccepted, World, TurnRun, emit, report, begin_response, track_run}
use omnigent_go_sdk.Chat.Sides.{act}
use omnigent_go_sdk.Chat.Loop.{
  new_run, report_failure, conclude_turn, pass_on, read_turn, on_subscribed, read_subscribed, drive,
}
use omnigent_go_sdk.Chat.Emits.{Outward, Shows, reported, act-Shows}

-- The caller has been handed one step after another, and none after it stopped.
abbrev Handed : Consumer Event → Outward
Handed caller yield out stopped tracker = (yield ≡ caller) × Offered caller out stopped

module _ (caller : Consumer Event) where
  abbrev Civil : TurnRun → Type 0
  Civil = Shows (Handed caller)

  emitted : (run : TurnRun) (step : Step Event) → Civil run → Civil (emit run step)
  unfolding emit
  emitted run step (e, h) =
      let out = handed run.stopped run.out step in
      (
        e,
        subst (λ z. Offered caller out (run.stopped || not (z out))) (sym e)
            (offer caller run.out run.stopped step h),
      )

  told : (run : TurnRun) (err : Err) → Civil run → Civil (report run err)
  told = reported (Handed caller) emitted

  reported_failure : (run : TurnRun) (o : Option Err) → Civil run → Civil (report_failure run o)
  reported_failure run none h = h
  reported_failure run (some err) h = told run err h

  begun : (run : TurnRun) (id : Text) → Civil run → Civil (begin_response run id)
  unfolding begin_response
  begun run id h = if_intro Civil _ (λ _. h) (λ _. h)

  pass_on-Civil : (run : TurnRun) (e : Event) → Civil run → Civil (pass_on run e)
  unfolding pass_on track_run
  pass_on-Civil run (response_created r) h =
      emitted (track_run run (response_created r)) (value (some (response_created r)))
        (begun run r.id h)
  pass_on-Civil run (queued r) h =
      emitted (track_run run (queued r)) (value (some (queued r))) (begun run r.id h)
  pass_on-Civil run (in_progress r) h =
      emitted (track_run run (in_progress r)) (value (some (in_progress r))) (begun run r.id h)
  pass_on-Civil run e h = emitted (track_run run e) (value (some e)) h

  conclude_turn-Civil : (run : TurnRun) → Civil run → Civil (conclude_turn run)
  unfolding conclude_turn
  conclude_turn-Civil run h = if_intro Civil _ (λ _. told run _ h) (λ _. h)

  module _ (world : World) where
    read_turn-Civil :
        (run : TurnRun) (steps : List (Step Event)) → Civil run → Civil (read_turn world run steps)
    unfolding read_turn
    read_turn-Civil run [] h = conclude_turn-Civil run h
    read_turn-Civil run (failure _ err ∷ steps) h = told run err h
    read_turn-Civil run (value none ∷ steps) h =
        let passed : TurnRun = emit run (value none) in
        let h' = emitted run (value none) h in
        if_intro Civil passed.stopped (λ _. h')
          (λ _.
            if_intro Civil (ended passed.tracker)
              (λ _. reported_failure passed passed.tracker.failure h')
              (λ _. read_turn-Civil passed steps h'))
    read_turn-Civil run (value (some e) ∷ steps) h =
        let passed : TurnRun = pass_on run e in
        let acted : TurnRun = act world passed e in
        let h' = pass_on-Civil run e h in
        let h'' = act-Shows (Handed caller) emitted world passed e h' in
        if_intro Civil passed.stopped (λ _. h')
          (λ _.
            if_intro Civil (acted.stopped || acted.unfinishable) (λ _. h'')
              (λ _.
                if_intro Civil (ended acted.tracker)
                  (λ _. reported_failure acted acted.tracker.failure h'')
                  (λ _. read_turn-Civil acted steps h'')))

    read_subscribed-Civil :
        (run : TurnRun) (answer : Err ⊎ EventAccepted) (steps : List (Step Event))
        → Civil run
        → Civil (read_subscribed world run (on_subscribed run answer) steps)
    unfolding read_subscribed on_subscribed
    read_subscribed-Civil run (inl err) steps h = told run err h
    read_subscribed-Civil run (inr accepted) steps h =
        if_intro (λ (o : Err ⊎ TurnRun). Civil (read_subscribed world run o steps)) accepted.denied
          (λ _. told run _ h) (λ _. read_turn-Civil _ steps h)

-- Whatever the server, the hooks and the tools do: the events and errors of a turn, those of its side
-- effects among them, are handed to the caller one by one, and none after the caller has answered
-- that it stops.
pub stopped_reader :
    (world : World) (opts : TurnOptions) (caller : Consumer Event) (answer : Err ⊎ EventAccepted)
    (steps : List (Step Event))
    → Offered caller
        (drive world opts caller answer steps).out
        (drive world opts caller answer steps).stopped
unfolding drive new_run
stopped_reader world opts caller answer steps =
    (read_subscribed-Civil caller world (new_run world opts caller) answer steps (refl, nothing)).1
