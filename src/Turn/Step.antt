-- ===== src/Turn/Step.antt =====
-- What one event does to the tracker, against the families of Turn/Signals.
use omnigent_go_sdk.Prelude.{
  ◌≡◌, sym, ◌≢◌, ◌⊎◌, inl, inr, ◌∙◌, ap, Bool, true, false, none, some, [], arith, Option-cases,
}
use omnigent_go_sdk.Prelude.Text.{Text, same_iff}
use omnigent_go_sdk.Errors.{Err}
use omnigent_go_sdk.Wire.{
  Event, ResponseObject, response_completed, response_cancelled, incomplete, response_failed,
  InputConsumed, input_consumed, StatusEdge, idle, failed, status_edge, superseded,
}
use omnigent_go_sdk.Turn.{on_response_lifecycle, TurnTracker, observe_response_terminal, track}
use omnigent_go_sdk.Turn.Boundary.{track-SameSetup}
use omnigent_go_sdk.Turn.Signals.{
  Reading, Echoes, by_item, by_pending, Answers, by_idle, by_completed, BadTerminal, cancelled,
  cut_short, broken, Faults, by_session, by_response, by_terminal, by_superseded,
}

-- The tracker of a reading, whatever it has observed.
pub record Tracks (r : Reading) (t : TurnTracker) : Type 0 where
  pub end : t.end ≡ r.options.end
  pub prior : t.prior ≡ r.options.prior_response_ids
  pub session_id : t.session_id ≡ r.session_id
  pub anchor : t.anchor ≡ r.anchor

pub Tracks-track : (r : Reading) (t : TurnTracker) (e : Event) → Tracks r t → Tracks r (track t e)
Tracks-track r t e k =
    let s = track-SameSetup t e in
    record {
      end = s.end ∙ k.end;
      prior = s.prior ∙ k.prior;
      session_id = s.session_id ∙ k.session_id;
      anchor = s.anchor ∙ k.anchor;
    }

idle_answer :
    (t : TurnTracker) (e : StatusEdge)
    → t.id ≡ []
    → (track t (status_edge e)).id ≢ []
    → (t.crossed ≡ true)
      × (t.prior (track t (status_edge e)).id ≡ false)
      × (e.status ≡ idle)
      × (e.conversation_id ≡ t.session_id)
      × (e.response_id ≡ some (track t (status_edge e)).id)
unfolding track
idle_answer t e empty h = ground (arith, same_iff e.conversation_id t.session_id)

terminal_answer :
    (t : TurnTracker) (o : ResponseObject)
    → t.id ≡ []
    → (track t (response_completed o)).id ≢ []
    → (t.crossed ≡ true)
      × (t.prior (track t (response_completed o)).id ≡ false)
      × (t.end ≡ on_response_lifecycle)
      × (o.id ≡ (track t (response_completed o)).id)
unfolding track
terminal_answer t o empty h = ground arith

-- One event gives the tracker its answer only if it is an answer after the boundary, by a
-- response that is not a prior one.
pub track-answer :
    (r : Reading) (t : TurnTracker) (e : Event)
    → Tracks r t
    → t.id ≡ []
    → (track t e).id ≢ []
    → (t.crossed ≡ true)
      × (r.options.prior_response_ids (track t e).id ≡ false)
      × Answers r (track t e).id true e
unfolding track
track-answer r t (status_edge e) k empty h =
    let (c, p, s, v, i) = idle_answer t e empty h in
    (
      c,
      ap (λ (f : Text → Bool). f (track t (status_edge e)).id) (sym k.prior) ∙ p,
      by_idle e s (v ∙ k.session_id) i,
    )
track-answer r t (response_completed o) k empty h =
    let (c, p, l, i) = terminal_answer t o empty h in
    (
      c,
      ap (λ (f : Text → Bool). f (track t (response_completed o)).id) (sym k.prior) ∙ p,
      by_completed o (sym k.end ∙ l) i,
    )
track-answer r t e k empty h = absurd (h (ground arith))

echo_found :
    (t : TurnTracker) (c : InputConsumed)
    → t.crossed ≡ false
    → (track t (input_consumed c)).crossed ≡ true
    → (t.anchor ≢ []) × ((c.item_id ≡ t.anchor) ⊎ (c.cleared_pending_id ≡ some t.anchor))
unfolding track
echo_found t c before after = elim (Option-cases c.cleared_pending_id) [
  | inl e ↦ ground (arith, same_iff c.item_id t.anchor)
  | inr (p, e) ↦ ground (arith, same_iff c.item_id t.anchor, same_iff p t.anchor)
]

edge_crosses_nothing :
    (t : TurnTracker) (e : StatusEdge) → (track t (status_edge e)).crossed ≡ t.crossed
unfolding track
edge_crosses_nothing t e = ground arith

-- One event crosses the boundary only if it is the echo.
pub track-echo :
    (r : Reading) (t : TurnTracker) (e : Event)
    → Tracks r t
    → t.crossed ≡ false
    → (track t e).crossed ≡ true
    → Echoes r e
unfolding track
track-echo r t (input_consumed c) k before after =
    let (n, found) = echo_found t c before after in
    let named : r.anchor ≢ [] = λ e. n (k.anchor ∙ e) in
    elim found [
      | inl p ↦ by_item c named (p ∙ k.anchor)
      | inr p ↦ by_pending c named (p ∙ ap some k.anchor)
    ]
track-echo r t (status_edge e) k before after = cc (edge_crosses_nothing t e)
track-echo r t e k before after = absurd (ground arith)

pub Answers-end :
    (r : Reading) (t : TurnTracker) (id : Text) (e : Event)
    → Tracks r t
    → t.crossed ≡ true
    → id ≢ []
    → t.prior id ≡ false
    → Answers r id true e
    → (track t e).id ≡ id
unfolding track
Answers-end r t id _ k c n p (by_idle e s v i) =
    ground (arith, k.session_id, same_iff e.conversation_id t.session_id)
Answers-end r t id _ k c n p (by_completed o l i) = ground (arith, k.end)

pub Echoes-cross :
    (r : Reading) (t : TurnTracker) (e : Event)
    → Tracks r t
    → Echoes r e
    → (track t e).crossed ≡ true
unfolding track
Echoes-cross r t e k (by_item c n i) = ground (arith, k.anchor, same_iff c.item_id t.anchor)
Echoes-cross r t e k (by_pending c n i) =
    ground (arith, k.anchor, same_iff r.anchor t.anchor, same_iff c.item_id t.anchor)

fault_edge :
    (t : TurnTracker) (e : StatusEdge)
    → t.failure ≡ none
    → (track t (status_edge e)).failure ≢ none
    → (e.status ≡ failed)
      × ((e.conversation_id ≡ []) ⊎ (e.conversation_id ≡ t.session_id))
      × ((e.response_id ≡ none)
          ⊎ ((id : Text) × (e.response_id ≡ some id) × (t.crossed ≡ true) × (t.prior id ≡ false)))
unfolding track
fault_edge t e quiet h = elim (Option-cases e.response_id) [
  | inl p ↦ ground (arith, same_iff e.conversation_id t.session_id)
  | inr (id, p) ↦
      let facts : (e.status ≡ failed)
          × ((e.conversation_id ≡ []) ⊎ (e.conversation_id ≡ t.session_id))
          × (t.crossed ≡ true)
          × (t.prior id ≡ false) =
        ground (arith, same_iff e.conversation_id t.session_id) in
      (facts.0, facts.1, inr (id, p, facts.2, facts.3))
]

prior_of :
    (r : Reading) (t : TurnTracker) (id : Text)
    → Tracks r t
    → t.prior id ≡ false
    → r.options.prior_response_ids id ≡ false
prior_of r t id k p = ap (λ (f : Text → Bool). f id) (sym k.prior) ∙ p

session_of :
    (r : Reading) (t : TurnTracker) (c : Text)
    → Tracks r t
    → (c ≡ []) ⊎ (c ≡ t.session_id)
    → (c ≡ []) ⊎ (c ≡ r.session_id)
session_of r t c k (inl p) = inl p
session_of r t c k (inr p) = inr (p ∙ k.session_id)

terminal_facts :
    (t : TurnTracker) (id : Text) (err : Err)
    → t.failure ≡ none
    → (observe_response_terminal t id (some err)).failure ≢ none
    → (t.crossed ≡ true) × (t.end ≡ on_response_lifecycle) × (id ≢ []) × (t.prior id ≡ false)
unfolding observe_response_terminal
terminal_facts t id err quiet h = ground arith

terminal-Faults :
    (r : Reading) (t : TurnTracker) (e : Event) (o : ResponseObject) (err : Err)
    → Tracks r t
    → BadTerminal o e
    → t.failure ≡ none
    → (observe_response_terminal t o.id (some err)).failure ≢ none
    → Faults r t.crossed e
terminal-Faults r t e o err k b quiet h =
    let (c, l, n, p) = terminal_facts t o.id err quiet h in
    rw c (by_terminal o b (sym k.end ∙ l) n (prior_of r t o.id k p))

-- One event records a failure only if it is a fault of the turn.
pub track-fault :
    (r : Reading) (t : TurnTracker) (e : Event)
    → Tracks r t
    → t.failure ≡ none
    → (track t e).failure ≢ none
    → Faults r t.crossed e
unfolding track
track-fault r t (status_edge e) k quiet h =
    let (s, c, found) = fault_edge t e quiet h in
    elim found [
      | inl p ↦ by_session e s (session_of r t _ k c) p
      | inr (id, p, x, q) ↦ rw x (by_response e id s (session_of r t _ k c) p (prior_of r t id k q))
    ]
track-fault r t (superseded e) k quiet h =
    by_superseded e (ground (arith, same_iff e.conversation_id t.session_id) ∙ k.session_id)
track-fault r t (response_cancelled o) k quiet h = terminal-Faults r t _ o _ k cancelled quiet h
track-fault r t (incomplete o) k quiet h = terminal-Faults r t _ o _ k cut_short quiet h
track-fault r t (response_failed o) k quiet h = terminal-Faults r t _ o _ k broken quiet h
track-fault r t e k quiet h = absurd (h (ground arith))

-- A fault is recorded, unless a failure is there before it.
pub Faults-end :
    (r : Reading) (t : TurnTracker) (b : Bool) (e : Event)
    → Tracks r t
    → (b ≡ true → t.crossed ≡ true)
    → Faults r b e
    → (track t e).failure ≢ none
unfolding track observe_response_terminal
Faults-end r t b _ k c (by_session e s v i) =
    ground (arith, k.session_id, same_iff e.conversation_id t.session_id)
Faults-end r t b _ k c (by_response e id s v i p) =
    ground (arith, k.session_id, k.prior, same_iff e.conversation_id t.session_id)
Faults-end r t b _ k c (by_terminal o cancelled l n p) = ground (arith, k.end, k.prior)
Faults-end r t b _ k c (by_terminal o cut_short l n p) = ground (arith, k.end, k.prior)
Faults-end r t b _ k c (by_terminal o broken l n p) = ground (arith, k.end, k.prior)
Faults-end r t b _ k c (by_superseded e v) =
    ground (arith, k.session_id, same_iff e.conversation_id t.session_id)
