-- ===== src/Turn/Ends.antt =====
-- turn.go: where the tracker takes an event for the end of its turn, against Turn/Signals.
use omnigent_go_sdk.Prelude.{
  ◌≡◌, refl, sym, ◌≢◌, ◌⊎◌, inl, inr, ◌↔◌, ◌∙◌, ap, subst, Bool, true, false, true≢false,
  false≢true, none, List, [], ◌∷◌, arith, if_intro, Bool-cases,
}
use omnigent_go_sdk.Prelude.Text.{Text}
use omnigent_go_sdk.Wire.{Event}
use omnigent_go_sdk.Turn.{TurnTracker, new_turn_tracker, anchor_on, ended, track, track_until}
use omnigent_go_sdk.Turn.Boundary.{track-crossed}
use omnigent_go_sdk.Turn.Step.{
  Tracks, Tracks-track, track-answer, track-echo, Answers-end, Echoes-cross, track-fault,
  Faults-end,
}
use omnigent_go_sdk.Turn.Signals.{
  Reading, Answers, by_idle, by_completed, Faults, HappensIn, now, echo, later,
}

-- Neither an answer nor a fatal signal yet.
abbrev Open : TurnTracker → Type 0
Open t = (t.id ≡ []) × (t.failure ≡ none)

still-Open : (t : TurnTracker) → ended t ≡ false → Open t
unfolding ended
still-Open t h = ground arith

why_ended : (t : TurnTracker) → ended t ≡ true → (t.id ≢ []) ⊎ (t.failure ≢ none)
unfolding ended
why_ended t h = ground arith

-- What happens behind one more event.
happens_later :
    (r : Reading) (E : Bool → Event → Type 0) (t : TurnTracker) (e : Event) (es : List Event)
    → Tracks r t
    → HappensIn r E (track t e).crossed es
    → HappensIn r E t.crossed (e ∷ es)
happens_later r E t e es k a = elim (Bool-cases t.crossed) [
  | inl c ↦ rw c (later (subst (λ b. HappensIn r E b es) (track-crossed t e c) a))
  | inr c ↦ elim (Bool-cases (track t e).crossed) [
    | inl d ↦ rw c (echo (track-echo r t e k c d) (subst (λ b. HappensIn r E b es) d a))
    | inr d ↦ rw c (later (subst (λ b. HappensIn r E b es) d a))
  ]
]

-- What the tracker has found when it stops.
abbrev Found : Reading → Bool → List Event → TurnTracker → Type 0
Found r crossed es u =
    (u.id ≢ []
      → HappensIn r (Answers r u.id) crossed es × (r.options.prior_response_ids u.id ≡ false))
    × (u.failure ≢ none → HappensIn r (Faults r) crossed es)

Found-track_until :
    (r : Reading) (t : TurnTracker) (es : List Event)
    → Tracks r t
    → Open t
    → Found r t.crossed es (track_until t es)
unfolding track_until
Found-track_until r t [] k o = (λ h. absurd (h o.0), λ h. absurd (h o.1))
Found-track_until r t (e ∷ es) k o =
    if_intro (Found r t.crossed (e ∷ es)) (ended (track t e))
      (λ _. (
        λ h.
            let (c, p, a) = track-answer r t e k o.0 h in
            (subst (λ b. HappensIn r (Answers r (track t e).id) b (e ∷ es)) (sym c) (now a), p),
        λ h. now (track-fault r t e k o.1 h),
      ))
      (λ more.
        let (sound, broke) =
          Found-track_until r (track t e) es (Tracks-track r t e k) (still-Open (track t e) more) in
        (
          λ h. let (a, p) = sound h in (happens_later r _ t e es k a, p),
          λ h. happens_later r _ t e es k (broke h),
        ))

-- Whatever happens in the family ends the turn, if one event of it does.
module _ (r : Reading) (E : Bool → Event → Type 0)
    (ends : (t : TurnTracker) (b : Bool) (e : Event)
      → Tracks r t
      → (b ≡ true → t.crossed ≡ true)
      → E b e
      → ended (track t e) ≡ true) where
  ended_of_happens :
      (t : TurnTracker) (b : Bool) (es : List Event)
      → Tracks r t
      → (b ≡ true → t.crossed ≡ true)
      → HappensIn r E b es
      → ended (track_until t es) ≡ true
  unfolding track_until
  ended_of_happens t b _ k c (now {e = e} {es = es} a) =
      if_intro (λ u. ended u ≡ true) (ended (track t e)) (λ d. d)
        (λ d. absurd (true≢false (sym (ends t b e k c a) ∙ d)))
  ended_of_happens t b _ k c (echo {e = e} {es = es} x a) =
      if_intro (λ u. ended u ≡ true) (ended (track t e)) (λ d. d)
        (λ _.
          ended_of_happens (track t e) true es (Tracks-track r t e k) (λ _. Echoes-cross r t e k x)
            a)
  ended_of_happens t b _ k c (later {e = e} {es = es} a) =
      if_intro (λ u. ended u ≡ true) (ended (track t e)) (λ d. d)
        (λ _.
          ended_of_happens (track t e) b es (Tracks-track r t e k) (λ h. track-crossed t e (c h)) a)

after_echo :
    {r : Reading} {id : Text} {b : Bool} {e : Event}
    → Answers r id b e
    → (b ≡ true) × Answers r id true e
after_echo (by_idle e s v i) = (refl, by_idle e s v i)
after_echo (by_completed o l i) = (refl, by_completed o l i)

answer_ends :
    (r : Reading) (id : Text)
    → id ≢ []
    → r.options.prior_response_ids id ≡ false
    → (t : TurnTracker) (b : Bool) (e : Event) → Tracks r t
    → (b ≡ true → t.crossed ≡ true)
    → Answers r id b e
    → ended (track t e) ≡ true
unfolding ended
answer_ends r id n p t b e k c a =
    let (flag, a') = after_echo a in
    let at = Answers-end r t id e k (c flag) n (ap (λ (f : Text → Bool). f id) k.prior ∙ p) a' in
    ground (arith, at)

fault_ends :
    (r : Reading) (t : TurnTracker) (b : Bool) (e : Event)
    → Tracks r t
    → (b ≡ true → t.crossed ≡ true)
    → Faults r b e
    → ended (track t e) ≡ true
unfolding ended
fault_ends r t b e k c f = ground (arith, Faults-end r t b e k c f)

-- The tracker that a turn starts to read with.
abbrev pub tracker_of : Reading → TurnTracker
tracker_of r = anchor_on (new_turn_tracker r.options r.session_id) r.anchor

start-Tracks : (r : Reading) → Tracks r (tracker_of r)
unfolding anchor_on new_turn_tracker
start-Tracks r = record { end = refl; prior = refl; session_id = refl; anchor = refl }

Found-at_end : (r : Reading) (es : List Event) → Found r false es (track_until (tracker_of r) es)
unfolding anchor_on new_turn_tracker
Found-at_end r es = Found-track_until r (tracker_of r) es (start-Tracks r) (refl, refl)

-- The response that a turn ends on is the one that an answer named: an idle edge of this session,
-- or under the lifecycle rule a completed response, that came after the server's echo of the
-- prompt. It is not one of the prior responses.
pub turn_answer :
    (r : Reading) (es : List Event)
    → (track_until (tracker_of r) es).id ≢ []
    → HappensIn r (Answers r (track_until (tracker_of r) es).id) false es
      × (r.options.prior_response_ids (track_until (tracker_of r) es).id ≡ false)
turn_answer r es h = (Found-at_end r es).0 h

-- A turn ends exactly when its events hold an answer by a response that is named and not prior,
-- behind the echo of the prompt, or a fault of the turn.
pub turn_ended_iff :
    (r : Reading) (es : List Event)
    → (ended (track_until (tracker_of r) es) ≡ true) ↔ (
        ((id : Text) × (id ≢ [])
          × (r.options.prior_response_ids id ≡ false)
          × HappensIn r (Answers r id) false es)
        ⊎ HappensIn r (Faults r) false es)
turn_ended_iff r es = (
  λ h.
      let (answered, broke) = Found-at_end r es in
      elim (why_ended (track_until (tracker_of r) es) h) [
        | inl n ↦ let (a, p) = answered n in inl (_, n, p, a)
        | inr n ↦ inr (broke n)
      ],
  λ found. elim found [
    | inl (id, n, p, a) ↦
        ended_of_happens r (Answers r id) (answer_ends r id n p) (tracker_of r) false es
          (start-Tracks r) (λ e. absurd (false≢true e)) a
    | inr a ↦
        ended_of_happens r (Faults r) (fault_ends r) (tracker_of r) false es (start-Tracks r)
          (λ e. absurd (false≢true e)) a
  ],
)
