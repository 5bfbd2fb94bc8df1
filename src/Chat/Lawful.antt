-- ===== src/Chat/Lawful.antt =====
-- chat.go: a whole turn, against the rules of Chat/Rules.
use omnigent_go_sdk.Prelude.{
  ◌≡◌, refl, ◌⊎◌, inl, inr, false, ◌||◌, List, [], ◌∷◌, Option, none, some, if_intro, is_empty,
}
use omnigent_go_sdk.Prelude.Text.{Text}
use omnigent_go_sdk.Prelude.Maps.{member}
use omnigent_go_sdk.Errors.{Err}
use omnigent_go_sdk.Wire.{Event, response_created, queued, in_progress}
use omnigent_go_sdk.Sequence.{Step, value, failure, Consumer}
use omnigent_go_sdk.Turn.{TurnOptions, ended}
use omnigent_go_sdk.Chat.{EventAccepted, World, TurnRun, emit, report, begin_response, track_run}
use omnigent_go_sdk.Chat.Sides.{act}
use omnigent_go_sdk.Chat.Loop.{
  new_run, report_failure, conclude_turn, pass_on, read_turn, on_subscribed, read_subscribed, drive,
}
use omnigent_go_sdk.Chat.Rules.{runs, posts, Lawful, idle}
use omnigent_go_sdk.Chat.Kept.{Calm}
use omnigent_go_sdk.Chat.Acts.{act-Calm}

module _ (world : World) (named : is_empty world.session_id ≡ false) where
  begin_response-Calm :
      (run : TurnRun) (id : Text) → Calm world run → Calm world (begin_response run id)
  unfolding begin_response
  begin_response-Calm run id h = if_intro (Calm world) _ (λ _. h) (λ _. h)

  pass_on-Calm : (run : TurnRun) (e : Event) → Calm world run → Calm world (pass_on run e)
  unfolding pass_on track_run emit
  pass_on-Calm run (response_created r) h = begin_response-Calm run r.id h
  pass_on-Calm run (in_progress r) h = begin_response-Calm run r.id h
  pass_on-Calm run (queued r) h = begin_response-Calm run r.id h
  pass_on-Calm run _ h = h

  report_failure-Calm :
      (run : TurnRun) (o : Option Err) → Calm world run → Calm world (report_failure run o)
  unfolding report emit
  report_failure-Calm run none h = h
  report_failure-Calm run (some err) h = h

  conclude_turn-Calm : (run : TurnRun) → Calm world run → Calm world (conclude_turn run)
  unfolding conclude_turn report emit
  conclude_turn-Calm run h = if_intro (Calm world) _ (λ _. h) (λ _. h)

  read_turn-Calm :
      (run : TurnRun) (steps : List (Step Event))
      → Calm world run
      → Calm world (read_turn world run steps)
  unfolding read_turn report emit
  read_turn-Calm run [] h = conclude_turn-Calm run h
  read_turn-Calm run (failure _ err ∷ steps) h = h
  read_turn-Calm run (value none ∷ steps) h =
      let passed : TurnRun = emit run (value none) in
      if_intro (Calm world) passed.stopped (λ _. h)
        (λ _.
          if_intro (Calm world) (ended passed.tracker)
            (λ _. report_failure-Calm passed passed.tracker.failure h)
            (λ _. read_turn-Calm passed steps h))
  read_turn-Calm run (value (some e) ∷ steps) h =
      let passed : TurnRun = pass_on run e in
      let acted : TurnRun = act world passed e in
      let h' = pass_on-Calm run e h in
      let h'' = act-Calm world named passed e h' in
      if_intro (Calm world) passed.stopped (λ _. h')
        (λ _.
          if_intro (Calm world) (acted.stopped || acted.unfinishable) (λ _. h'')
            (λ _.
              if_intro (Calm world) (ended acted.tracker)
                (λ _. report_failure-Calm acted acted.tracker.failure h'')
                (λ _. read_turn-Calm acted steps h'')))

  read_subscribed-Calm :
      (run : TurnRun) (answer : Err ⊎ EventAccepted) (steps : List (Step Event))
      → Calm world run
      → Calm world (read_subscribed world run (on_subscribed run answer) steps)
  unfolding read_subscribed on_subscribed report emit
  read_subscribed-Calm run (inl err) steps h = h
  read_subscribed-Calm run (inr accepted) steps h =
      if_intro (λ (o : Err ⊎ TurnRun). Calm world (read_subscribed world run o steps))
        accepted.denied (λ _. h) (λ _. read_turn-Calm _ steps h)

  drive-Calm :
      (opts : TurnOptions) (yield : Consumer Event) (answer : Err ⊎ EventAccepted)
      (steps : List (Step Event))
      → Calm world (drive world opts yield answer steps)
  unfolding drive new_run member
  drive-Calm opts yield answer steps =
      read_subscribed-Calm (new_run world opts yield) answer steps
        (record { lawful = idle; ran = λ k. refl; total = refl; answered = λ k. refl })

-- For a chat whose session id is not empty, and whatever the hooks, the tools, the caller, the
-- server's answers and its events: every effect of a turn is allowed by the rules of Chat/Rules
-- where it happens, so that a call id is run only once and within the budget, an output that is
-- posted is the output of the tool that ran last, and an approval is accepted only where the hook
-- has granted it; and every call is answered by as many posted outputs as it was run.
pub turn_is_Lawful :
    (world : World) (opts : TurnOptions) (yield : Consumer Event) (answer : Err ⊎ EventAccepted)
    (steps : List (Step Event))
    → is_empty world.session_id ≡ false
    → Lawful world (drive world opts yield answer steps).effects
      × ((k : Text)
          → posts k (drive world opts yield answer steps).effects
            ≡ runs k (drive world opts yield answer steps).effects)
turn_is_Lawful world opts yield answer steps named =
    let h = drive-Calm world named opts yield answer steps in (h.lawful, h.answered)
