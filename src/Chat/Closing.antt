-- ===== src/Chat/Closing.antt =====
-- chat.go: how a turn ends for a caller that reads to the end of it.
use omnigent_go_sdk.Prelude.{
  ◌≡◌, refl, sym, ap, ◌∙◌, subst, ◌⊎◌, inr, Bool, true, false, true≢false, not, ◌||◌, ◌&&◌, List,
  [], ◌∷◌, ◌++◌, Option, none, some, if_intro, if◌then◌else◌, arith,
}
use omnigent_go_sdk.Errors.{Err, turn_incomplete}
use omnigent_go_sdk.Wire.{Event, response_created, queued, in_progress}
use omnigent_go_sdk.Sequence.{Step, value, failure, Consumer}
use omnigent_go_sdk.Turn.{
  TurnOptions, TurnTracker, new_turn_tracker, anchor_on, ended, track, track_until,
}
use omnigent_go_sdk.Chat.{EventAccepted, World, TurnRun, emit, report, begin_response, track_run}
use omnigent_go_sdk.Chat.Sides.{act}
use omnigent_go_sdk.Chat.Loop.{
  anchor_of, new_run, report_failure, conclude_turn, pass_on, read_turn, on_subscribed,
  read_subscribed, drive,
}
use omnigent_go_sdk.Chat.Emits.{Outward, Shows, act-Shows}

-- The caller's loop never stops.
abbrev pub ReadsOn : Consumer Event → Type 0
ReadsOn yield = (out : List (Step Event)) → yield out ≡ true

-- The caller reads on, and the tracker is the given one.
abbrev Steady : TurnTracker → Outward
Steady t yield out stopped tracker = ReadsOn yield × (stopped ≡ false) × (tracker ≡ t)

abbrev pub events : List Event → List (Step Event)
events [] = []
events (e ∷ es) = value (some e) ∷ events es

-- The last step is the error.
abbrev pub EndsWith : Err → List (Step Event) → Type 0
EndsWith err out = (before : List (Step Event)) × (out ≡ before ++ failure none err ∷ [])

-- What a turn reports when it is over: that it is incomplete, where the tracker has not ended, and
-- the tracker's failure, where it has one.
abbrev pub Closed : TurnRun → Type 0
Closed run =
    (ended run.tracker ≡ false → EndsWith turn_incomplete run.out)
    × ((err : Err) → run.tracker.failure ≡ some err → EndsWith err run.out)

emit-Steady :
    (t : TurnTracker) (run : TurnRun) (step : Step Event)
    → Shows (Steady t) run
    → Shows (Steady t) (emit run step)
unfolding emit
emit-Steady t run step (reads, going, e) =
    (reads, ground (arith, going, reads (run.out ++ step ∷ [])), e)

begun-Steady :
    (t : TurnTracker) (run : TurnRun) (e : Event)
    → ReadsOn run.yield
    → run.stopped ≡ false
    → track run.tracker e ≡ t
    → Shows (Steady t) (track_run run e)
unfolding track_run begin_response
begun-Steady t run (response_created r) reads going q =
    if_intro
      (λ (u : TurnRun).
        Shows (Steady t) (record u { tracker = track run.tracker (response_created r) }))
      _ (λ _. (reads, going, q)) (λ _. (reads, going, q))
begun-Steady t run (queued r) reads going q =
    if_intro
      (λ (u : TurnRun). Shows (Steady t) (record u { tracker = track run.tracker (queued r) })) _
      (λ _. (reads, going, q)) (λ _. (reads, going, q))
begun-Steady t run (in_progress r) reads going q =
    if_intro
      (λ (u : TurnRun). Shows (Steady t) (record u { tracker = track run.tracker (in_progress r) }))
      _ (λ _. (reads, going, q)) (λ _. (reads, going, q))
begun-Steady t run e reads going q = (reads, going, q)

pass_on-Steady :
    (run : TurnRun) (e : Event)
    → ReadsOn run.yield
    → run.stopped ≡ false
    → Shows (Steady (track run.tracker e)) (pass_on run e)
unfolding pass_on
pass_on-Steady run e reads going =
    emit-Steady (track run.tracker e) (track_run run e) (value (some e))
      (begun-Steady (track run.tracker e) run e reads going refl)

reported_last :
    (run : TurnRun) (err : Err) → run.stopped ≡ false → EndsWith err (report run err).out
unfolding report emit
reported_last run err going = (run.out, ground (arith, going))

track_until-now :
    (t : TurnTracker) (e : Event) (es : List Event)
    → ended (track t e) ≡ true
    → track_until t (e ∷ es) ≡ track t e
unfolding track_until
track_until-now t e es h = ap (λ (b : Bool). if b then track t e else track_until (track t e) es) h

track_until-later :
    (t : TurnTracker) (e : Event) (es : List Event)
    → ended (track t e) ≡ false
    → track_until t (e ∷ es) ≡ track_until (track t e) es
unfolding track_until
track_until-later t e es h =
    ap (λ (b : Bool). if b then track t e else track_until (track t e) es) h

no_failure : (t : TurnTracker) (err : Err) → ended t ≡ false → t.failure ≡ some err → true ≡ false
unfolding ended
no_failure t err h f = ground (arith, h, f)

-- The turn ended as its tracker says, where it could be finished.
abbrev Finished : TurnTracker → List Event → TurnRun → Type 0
Finished t es u = u.unfinishable ≡ false → (u.tracker ≡ track_until t es) × Closed u

conclude_turn-Finished :
    (run : TurnRun)
    → run.stopped ≡ false
    → ended run.tracker ≡ false
    → Finished run.tracker [] (conclude_turn run)
unfolding conclude_turn track_until
conclude_turn-Finished run going still =
    if_intro (Finished run.tracker [])
      (not (ended run.tracker) && not run.stopped && not run.unfinishable)
      (λ _ _. (
        unfold report emit in refl,
        (
          λ _. reported_last run turn_incomplete going,
          λ err f. absurd (true≢false (no_failure run.tracker err still (unfold report emit in f))),
        ),
      ))
      (λ c free. absurd (true≢false (ground (arith, c, free, going, still))))

report_failure-Closed :
    (run : TurnRun) (o : Option Err)
    → run.stopped ≡ false
    → ended run.tracker ≡ true
    → run.tracker.failure ≡ o
    → ((report_failure run o).tracker ≡ run.tracker) × Closed (report_failure run o)
unfolding report emit
report_failure-Closed run none going e f =
    (refl, (λ h. absurd (true≢false (sym e ∙ h)), λ err g. cc))
report_failure-Closed run (some err) going e f = (
  refl,
  (
    λ h. absurd (true≢false (sym e ∙ h)),
    λ err' g.
        subst (λ (x : Err). EndsWith x (report run err).out) (ground (arith, f, g))
          (reported_last run err going),
  ),
)

-- The run after one event, where the turn goes on to the next one or ends.
module _ (world : World) where
  acted-Steady :
      (run : TurnRun) (e : Event)
      → ReadsOn run.yield
      → run.stopped ≡ false
      → Shows (Steady (track run.tracker e)) (act world (pass_on run e) e)
  acted-Steady run e reads going =
      let t = track run.tracker e in
      act-Shows (Steady t) (emit-Steady t) world (pass_on run e) e
        (pass_on-Steady run e reads going)

  stop-Finished :
      (t : TurnTracker) (e : Event) (es : List Event) (acted : TurnRun)
      → Shows (Steady (track t e)) acted
      → ended acted.tracker ≡ true
      → Finished t (e ∷ es) (report_failure acted acted.tracker.failure)
  stop-Finished t e es acted (reads, going, q) h _ =
      let (same_tracker, closed) = report_failure-Closed acted acted.tracker.failure going h refl in
      (same_tracker ∙ q ∙ sym (track_until-now t e es (ap ended (sym q) ∙ h)), closed)

  read_turn-Finished :
      (run : TurnRun) (es : List Event)
      → ReadsOn run.yield
      → run.stopped ≡ false
      → ended run.tracker ≡ false
      → Finished run.tracker es (read_turn world run (events es))
  unfolding read_turn
  read_turn-Finished run [] reads going still = conclude_turn-Finished run going still
  read_turn-Finished run (e ∷ es) reads going still =
      let passed : TurnRun = pass_on run e in
      let acted : TurnRun = act world passed e in
      let steady = acted-Steady run e reads going in
      let going' = (pass_on-Steady run e reads going).1 in
      if_intro (Finished run.tracker (e ∷ es)) passed.stopped
        (λ h. absurd (true≢false (sym h ∙ going')))
        (λ _.
          if_intro (Finished run.tracker (e ∷ es)) (acted.stopped || acted.unfinishable)
            (λ h free. absurd (true≢false (ground (arith, h, free, steady.1))))
            (λ _.
              if_intro (Finished run.tracker (e ∷ es)) (ended acted.tracker)
                (λ h. stop-Finished run.tracker e es acted steady h)
                (λ h free.
                  let (q, closed) = read_turn-Finished acted es steady.0 steady.1 h free in
                  (
                    q
                        ∙ ap (λ (t : TurnTracker). track_until t es) steady.2
                        ∙ sym (track_until-later run.tracker e es (ap ended (sym steady.2) ∙ h)),
                    closed,
                  ))))

start_open :
    (world : World) (opts : TurnOptions) (accepted : EventAccepted)
    → ended (anchor_on (new_turn_tracker opts world.session_id) (anchor_of accepted)) ≡ false
unfolding anchor_on new_turn_tracker ended
start_open world opts accepted = refl

-- For a caller that reads to the end, a prompt that the server accepts and any events of a stream
-- that has no error, where no call was refused for the budget: the tracker is the one that Turn
-- computes from the events; if it has not ended, the last step handed over is ErrTurnIncomplete; and
-- if it holds a failure, the last step is that failure.
pub turn_closing :
    (world : World) (opts : TurnOptions) (yield : Consumer Event) (accepted : EventAccepted)
    (es : List Event)
    → ReadsOn yield
    → accepted.denied ≡ false
    → (drive world opts yield (inr accepted) (events es)).unfinishable ≡ false
    → ((drive world opts yield (inr accepted) (events es)).tracker
        ≡ track_until (anchor_on (new_turn_tracker opts world.session_id) (anchor_of accepted)) es)
      × Closed (drive world opts yield (inr accepted) (events es))
unfolding drive read_subscribed on_subscribed new_run
turn_closing world opts yield accepted es reads taken =
    let t : TurnTracker = anchor_on (new_turn_tracker opts world.session_id) (anchor_of accepted) in
    let run : TurnRun = record (new_run world opts yield) { tracker = t } in
    if_intro
      (λ (o : Err ⊎ TurnRun).
        Finished t es (read_subscribed world (new_run world opts yield) o (events es)))
      accepted.denied (λ h. absurd (true≢false (sym h ∙ taken)))
      (λ _. read_turn-Finished world run es reads refl (start_open world opts accepted))
