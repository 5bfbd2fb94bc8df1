-- ===== src/Stream/Runs.antt =====
-- stream.go: every line keeps what holds of the reader.
use omnigent_go_sdk.Prelude.{
  ℕ, ◌≤◌, ◌≡◌, refl, sym, subst, Bool, true, false, not, List, [], ◌∷◌, ◌++◌, Option, none, some,
  if_intro, All-append, true≢false, if◌then◌else◌,
}
use omnigent_go_sdk.Prelude.Text.{Text, byte_length}
use omnigent_go_sdk.Errors.{Err}
use omnigent_go_sdk.Wire.{Event}
use omnigent_go_sdk.Sequence.{Step, value, Consumer, Offered, one}
use omnigent_go_sdk.Stream.{
  max_frame_bytes, StreamOptions, SkippedFrame, HookCall, subscribed_call, skipped_call, Reader,
  Progress, reading, saw_done, over, answered, call_subscribed, subscribe, call_skipped, deliver,
}
use omnigent_go_sdk.Stream.Kept.{
  Delivers, delivers, sound, Skips, skips, Announced, unasked, announced, Subscribed, unseen, live,
  first, Reading, Returned, Broken, by_caller, abort-Fine, hand-going,
}

Subscribed-none :
    (b : Bool) (calls : List HookCall) (out : List (Step Event))
    → Subscribed none b calls out
    → Announced none calls
Subscribed-none _ _ _ unseen = unasked [] tt
Subscribed-none _ _ _ (live calls out a) = a

Subscribed-some :
    (answer : Option Err) (b : Bool) (calls : List HookCall) (out : List (Step Event))
    → b ≡ false
    → Subscribed (some answer) b calls out
    → Announced (some answer) (calls ++ subscribed_call out ∷ [])
Subscribed-some answer _ _ _ e unseen = announced answer [] tt
Subscribed-some answer _ _ _ e (live calls out a) = absurd (true≢false e)

Announced-skip :
    (hook : Option (Option Err)) (calls : List HookCall) (call : HookCall)
    → Skips call
    → Announced hook calls
    → Announced hook (calls ++ call ∷ [])
Announced-skip _ _ call h (unasked calls hs) =
    unasked (calls ++ call ∷ []) (All-append Skips calls (call ∷ []) hs (h, tt))
Announced-skip _ _ call h (announced answer calls hs) =
    announced answer (calls ++ call ∷ []) (All-append Skips calls (call ∷ []) hs (h, tt))

Announced-of :
    (hook : Option (Option Err)) (b : Bool) (calls : List HookCall) (out : List (Step Event))
    → b ≡ true
    → Subscribed hook b calls out
    → Announced hook calls
Announced-of hook _ _ _ e unseen = absurd (true≢false (sym e))
Announced-of hook _ _ _ e (live calls out a) = a

still :
    (hook : Option (Option Err)) (b : Bool) (calls : List HookCall) (out : List (Step Event))
    → b ≡ true
    → Announced hook calls
    → Subscribed hook b calls out
still hook b calls out e a =
    subst (λ (z : Bool). Subscribed hook z calls out) (sym e) (live calls out a)

module _ (opts : StreamOptions) (caller : Consumer Event) where
  abbrev pub Kept : Reader → Type 0
  Kept = Reading opts caller

  -- A line leaves a reader of which `P` holds, where it reads on.
  abbrev pub Live : Progress → Type 0
  Live (reading r) = Kept r × (r.subscribed ≡ true)
  Live (saw_done r) = Kept r
  Live (over r) = Returned opts caller r × Broken opts caller r

  -- The reader with another frame's text, and what the hooks were told.
  pub told :
      (r : Reader) (name payload : Text) (b : Bool) (calls : List HookCall) (n : ℕ)
      (skip : Option Err)
      → byte_length payload ≤ max_frame_bytes
      → Subscribed opts.on_subscribed b calls r.out
      → Kept r
      → Kept (record r {
        name = name;
        payload = payload;
        subscribed = b;
        calls = calls;
        skipped = n;
        first_skip = skip;
      })
  told r name payload b calls n skip small hooks h = record {
    same_caller = h.same_caller;
    going = h.going;
    events = h.events;
    offered = h.offered;
    bounded = small;
    hooks = hooks;
  }

  answered-Live :
      (r : Reader) (answer : Option Err) → Kept r → r.subscribed ≡ true → Live (answered r answer)
  unfolding answered
  answered-Live r none h e = (h, e)
  answered-Live r (some err) h e = abort-Fine opts caller r err h

  called-Live :
      (r : Reader) (hook : Option (Option Err))
      → opts.on_subscribed ≡ hook
      → Kept r
      → r.subscribed ≡ false
      → Live (call_subscribed (record r { subscribed = true }) hook)
  unfolding call_subscribed
  called-Live r none e h new = (
    told r r.name r.payload true r.calls r.skipped r.first_skip h.bounded
        (live r.calls r.out (
          subst (λ hook. Announced hook r.calls) (sym e)
            (Subscribed-none r.subscribed r.calls r.out
              (subst (λ hook. Subscribed hook r.subscribed r.calls r.out) e h.hooks))))
        h,
    refl,
  )
  called-Live r (some answer) e h new =
      let calls = r.calls ++ subscribed_call r.out ∷ [] in
      answered-Live (record r { calls = calls; subscribed = true }) answer
        (told r r.name r.payload true calls r.skipped r.first_skip h.bounded
          (live calls r.out (
            subst (λ hook. Announced hook calls) (sym e)
              (Subscribed-some answer r.subscribed r.calls r.out new
                (subst (λ hook. Subscribed hook r.subscribed r.calls r.out) e h.hooks))))
          h)
        refl

  pub subscribe-Live : (r : Reader) → Kept r → Live (subscribe opts r)
  unfolding subscribe
  subscribe-Live r h =
      if_intro Live r.subscribed (λ e. (h, e)) (λ e. called-Live r opts.on_subscribed refl h e)

  pub skipped-Live :
      (r : Reader) (f : SkippedFrame) (hook : Option (ℕ → SkippedFrame → Option Err)) (n : ℕ)
      → byte_length f.payload ≤ max_frame_bytes
      → Kept r
      → r.subscribed ≡ true
      → Live (call_skipped r f hook n)
  unfolding call_skipped
  skipped-Live r f none n small h e = (h, e)
  skipped-Live r f (some hook) n small h e =
      let calls = r.calls ++ skipped_call f ∷ [] in
      answered-Live (record r { calls = calls }) (hook n f)
        (told r r.name r.payload r.subscribed calls r.skipped r.first_skip h.bounded
          (still opts.on_subscribed r.subscribed calls r.out e (
            Announced-skip opts.on_subscribed r.calls (skipped_call f) (skips f small)
              (Announced-of opts.on_subscribed r.subscribed r.calls r.out e h.hooks)))
          h)
        e

  -- A reader that has handed over one more event.
  abbrev after : Reader → Event → Reader
  after r event = record r {
    out = r.out ++ value (some event) ∷ [];
    stopped = not (caller (r.out ++ value (some event) ∷ []));
    delivered = true;
  }

  after-Live :
      (r : Reader) (event : Event)
      → Kept r
      → r.subscribed ≡ true
      → Live (if (after r event).stopped then over (after r event) else reading (after r event))
  after-Live r event h e =
      let out = r.out ++ value (some event) ∷ [] in
      let events =
        All-append Delivers r.out (value (some event) ∷ []) h.events (delivers event, tt) in
      let offered = one r.out (value (some event)) h.offered in
      let told_of = Announced-of opts.on_subscribed r.subscribed r.calls r.out e h.hooks in
      if_intro Live (not (caller out))
        (λ e. (
          record {
            fails_last = sound out events;
            all_offered = offered;
            subscribed_first = first r.calls out told_of;
          },
          by_caller e,
        ))
        (λ going. (
          record {
            same_caller = h.same_caller;
            going = going;
            events = events;
            offered = subst (Offered caller out) going offered;
            bounded = h.bounded;
            hooks = still opts.on_subscribed r.subscribed r.calls out e told_of;
          },
          e,
        ))

  pub deliver-Live :
      (r : Reader) (event : Event) → Kept r → r.subscribed ≡ true → Live (deliver r event)
  unfolding deliver
  deliver-Live r event h e =
      subst
        (λ (u : Reader). Live (
          if u.stopped
          then over (record u { delivered = true })
          else reading (record u { delivered = true })))
        (sym (hand-going opts caller r (value (some event)) h)) (after-Live r event h e)
