-- ===== src/Stream/Kept.antt =====
-- stream.go: what holds of the reader while its loop reads on, and once it has returned.
use omnigent_go_sdk.Prelude.{
  ◌≤◌, ◌≡◌, refl, sym, ap, subst, ◌∙◌, Bool, true, false, not, ◌||◌, List, [], ◌∷◌, ◌++◌, Option,
  none, some, All, arith,
}
use omnigent_go_sdk.Prelude.Text.{byte_length}
use omnigent_go_sdk.Errors.{Err}
use omnigent_go_sdk.Wire.{Event}
use omnigent_go_sdk.Sequence.{Step, value, failure, Consumer, handed, Offered, one}
use omnigent_go_sdk.Stream.{
  max_frame_bytes, StreamOptions, SkippedFrame, HookCall, subscribed_call, skipped_call, Reader,
  Progress, reading, saw_done, over, hand, abort, answered,
}

-- A step that hands over an event.
pub data Delivers : Step Event → Type 0 where
  delivers : (e : Event) → Delivers (value (some e))

pub data Fails : Step Event → Type 0 where
  fails : (err : Err) → Fails (failure none err)

-- Only the last step is an error.
pub data FailsLast : List (Step Event) → Type 0 where
  sound : (out : List (Step Event)) → All Delivers out → FailsLast out
  failed :
      (out : List (Step Event)) (err : Err)
      → All Delivers out
      → FailsLast (out ++ failure none err ∷ [])

-- A call of OnSkippedFrame with a frame within the bound.
pub data Skips : HookCall → Type 0 where
  skips : (f : SkippedFrame) → byte_length f.payload ≤ max_frame_bytes → Skips (skipped_call f)

-- The calls of the hooks of a subscription that is live: OnSubscribed first, where it is set, and
-- before anything was handed over.
pub data Announced : Option (Option Err) → List HookCall → Type 0 where
  unasked : (calls : List HookCall) → All Skips calls → Announced none calls
  announced :
      (answer : Option Err) (calls : List HookCall)
      → All Skips calls
      → Announced (some answer) (subscribed_call [] ∷ calls)

-- Either no frame was seen, or the subscription was announced.
pub data Subscribed (hook : Option (Option Err))
    : Bool → List HookCall → List (Step Event) → Type 0 where
  unseen : Subscribed hook false [] []
  live :
      (calls : List HookCall) (out : List (Step Event))
      → Announced hook calls
      → Subscribed hook true calls out

-- What is true at the end.
pub data SubscribedFirst (hook : Option (Option Err))
    : List HookCall → List (Step Event) → Type 0 where
  no_frame : (out : List (Step Event)) → All Fails out → SubscribedFirst hook [] out
  first :
      (calls : List HookCall) (out : List (Step Event))
      → Announced hook calls
      → SubscribedFirst hook calls out

module _ (opts : StreamOptions) (caller : Consumer Event) where
  -- The caller has not stopped and was handed events alone.
  pub record Reading (r : Reader) : Type 0 where
    pub same_caller : r.yield ≡ caller
    pub going : r.stopped ≡ false
    pub events : All Delivers r.out
    pub offered : Offered caller r.out false
    pub bounded : byte_length r.payload ≤ max_frame_bytes
    pub hooks : Subscribed opts.on_subscribed r.subscribed r.calls r.out

  pub record Returned (r : Reader) : Type 0 where
    pub fails_last : FailsLast r.out
    pub all_offered : Offered caller r.out r.stopped
    pub subscribed_first : SubscribedFirst opts.on_subscribed r.calls r.out

  -- Why the function returned inside the loop.
  pub data Broken (r : Reader) : Type 0 where
    by_caller : r.stopped ≡ true → Broken r
    by_error :
        (out : List (Step Event)) (err : Err) → r.out ≡ out ++ failure none err ∷ [] → Broken r

  abbrev pub Fine : Progress → Type 0
  Fine (reading r) = Reading r
  Fine (saw_done r) = Reading r
  Fine (over r) = Returned r × Broken r

  pub hand-going :
      (r : Reader) (step : Step Event)
      → Reading r
      → hand r step
        ≡ record r { out = r.out ++ step ∷ []; stopped = not (caller (r.out ++ step ∷ [])) }
  unfolding hand
  hand-going r step h =
      ap
        (λ (b : Bool). record r {
          out = handed b r.out step;
          stopped = b || not (r.yield (handed b r.out step));
        })
        h.going
      ∙ ap
          (λ (y : Consumer Event). record r {
            out = r.out ++ step ∷ [];
            stopped = not (y (r.out ++ step ∷ []));
          })
          h.same_caller

  at_last :
      (hook : Option (Option Err)) (b : Bool) (calls : List HookCall) (out : List (Step Event))
      (err : Err)
      → Subscribed hook b calls out
      → SubscribedFirst hook calls (out ++ failure none err ∷ [])
  at_last hook _ _ _ err unseen = no_frame (failure none err ∷ []) (fails err, tt)
  at_last hook _ _ _ err (live calls out a) = first calls (out ++ failure none err ∷ []) a

  pub refused :
      (r : Reader) (err : Err)
      → Reading r
      → Returned (hand r (failure none err)) × Broken (hand r (failure none err))
  refused r err h =
      subst (λ (u : Reader). Returned u × Broken u) (sym (hand-going r (failure none err) h))
        (
          record {
            fails_last = failed r.out err h.events;
            all_offered = one r.out (failure none err) h.offered;
            subscribed_first = at_last opts.on_subscribed r.subscribed r.calls r.out err h.hooks;
          },
          by_error r.out err refl,
        )

  pub abort-Fine : (r : Reader) (err : Err) → Reading r → Fine (abort r err)
  unfolding abort
  abort-Fine r err h = refused r err h

  pub answered-Fine : (r : Reader) (answer : Option Err) → Reading r → Fine (answered r answer)
  unfolding answered
  answered-Fine r none h = h
  answered-Fine r (some err) h = abort-Fine r err h

  -- The frame's text is cleared before its end is acted on.
  pub cleared : (r : Reader) → Reading r → Reading (record r { name = []; payload = [] })
  unfolding byte_length
  cleared r h = record {
    same_caller = h.same_caller;
    going = h.going;
    events = h.events;
    offered = h.offered;
    bounded = omega arith;
    hooks = h.hooks;
  }
