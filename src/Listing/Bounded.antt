-- ===== src/Listing/Bounded.antt =====
-- list.go: the requests of one walk over a listing.
use omnigent_go_sdk.Prelude.{
  ℕ, zero, suc, ◌+◌, ◌≤◌, ◌≡◌, refl, sym, subst, ◌⊎◌, inl, inr, Bool, true, false, not, ◌||◌, List,
  [], ◌∷◌, some, is_empty, Bool-cases, false≢true, if_intro, length, arith,
}
use omnigent_go_sdk.Prelude.Text.{Text, same, same_iff}
use omnigent_go_sdk.Prelude.Maps.{TextSet, member, add, member-add}
use omnigent_go_sdk.Errors.{Err}
use omnigent_go_sdk.Sequence.{value, Consumer}
use omnigent_go_sdk.Listing.{
  Page, Fetch, Walk, Next, finished, cut_short, follow, next_of, hand, hand_all, resume, go_on,
  receive, walk, page_seq, max_listing_pages,
}

-- No text is in the list twice.
abbrev pub Distinct : List Text → Type 0
Distinct [] = Unit
Distinct (k ∷ ks) = (member k ks ≡ false) × Distinct ks

-- A cursor that is followed.
data Followed (seen : TextSet) : Next → Type 0 where
  no_more : Followed seen finished
  cut : (err : Err) → Followed seen (cut_short err)
  fresh : (c : Text) → is_empty c ≡ false → member c seen ≡ false → Followed seen (follow c)

followed {ℓ} : {A : Type ℓ} (n : ℕ) (seen : TextSet) (p : Page A) → Followed seen (next_of n seen p)
unfolding next_of
followed n seen p =
    if_intro (Followed seen) (not p.has_more) (λ _. no_more)
      (λ _.
        if_intro (Followed seen) (is_empty p.data_of) (λ _. cut _)
          (λ _.
            if_intro (Followed seen) (is_empty p.last_id) (λ _. cut _)
              (λ named.
                if_intro (Followed seen) (member p.last_id seen) (λ _. cut _)
                  (λ h. fresh p.last_id named h))))

-- The cursors that were asked for are the empty one and those of `seen`, none is there twice, and
-- so many requests are left.
record Room (bound left : ℕ) (seen : TextSet) (asked : List Text) : Type 0 where
  known : (k : Text) → member k asked ≡ true → (is_empty k || member k seen) ≡ true
  distinct : Distinct asked
  enough : length asked + left ≤ bound

new_cursor :
    (bound left : ℕ) (c : Text) (seen asked : List Text)
    → is_empty c ≡ false
    → member c seen ≡ false
    → Room bound left seen asked
    → (member c asked ≡ false) × Room bound left (add c seen) asked
new_cursor bound left c seen asked named unseen room = (
  ground (arith, named, unseen, room.known c),
  record {
    known = λ k m. ground (arith, room.known k m, member-add c k seen);
    distinct = room.distinct;
    enough = room.enough;
  },
)

now_known :
    (c : Text) (seen asked : List Text)
    → (is_empty c || member c seen) ≡ true
    → ((k : Text) → member k asked ≡ true → (is_empty k || member k seen) ≡ true)
    → (k : Text) → member k (c ∷ asked) ≡ true
    → (is_empty k || member k seen) ≡ true
unfolding member
now_known c seen asked here known k m = elim (Bool-cases (same c k)) [
  | inl e ↦ subst (λ (j : Text). (is_empty j || member j seen) ≡ true) ((same_iff c k).0 e) here
  | inr e ↦ known k (ground (arith, e, m))
]

module _ {ℓ} {A : Type ℓ} where
  hand_all-asked : (w : Walk A) (xs : List A) → (hand_all w xs).asked ≡ w.asked
  unfolding hand_all hand
  hand_all-asked w [] = refl
  hand_all-asked w (x ∷ xs) =
      if_intro (λ (u : Walk A). u.asked ≡ w.asked) (hand w (value (some x))).stopped (λ _. refl)
        (λ _. hand_all-asked (hand w (value (some x))) xs)

  abbrev Good : ℕ → Walk A → Type 0
  Good bound w = Distinct w.asked × (length w.asked ≤ bound)

  module _ (bound : ℕ) (fetch : Fetch A) where
    abbrev AllGood : ℕ → Type ℓ
    AllGood left =
        (n : ℕ) (c : Text) (seen : TextSet) (w : Walk A)
        → member c w.asked ≡ false
        → (is_empty c || member c seen) ≡ true
        → Room bound left seen w.asked
        → Good bound (walk fetch left n c seen w)

    resume-Good :
        (left n : ℕ) (seen : TextSet) (w : Walk A) (next : Next)
        → AllGood left
        → Followed seen next
        → Room bound left seen w.asked
        → Good bound (resume (λ c. walk fetch left (suc n) c (add c seen) w) w next)
    unfolding resume hand
    resume-Good left n seen w _ ih no_more room = (room.distinct, omega (arith, room.enough))
    resume-Good left n seen w _ ih (cut err) room = (room.distinct, omega (arith, room.enough))
    resume-Good left n seen w _ ih (fresh c named unseen) room =
        let (new, room') = new_cursor bound left c seen w.asked named unseen room in
        ih (suc n) c (add c seen) w new (ground (arith, member-add c c seen, same_iff c c)) room'

    go_on-Good :
        (left n : ℕ) (seen : TextSet) (w : Walk A) (stopped : Bool) (next : Next)
        → AllGood left
        → Followed seen next
        → Room bound left seen w.asked
        → Good bound (go_on (λ c. walk fetch left (suc n) c (add c seen) w) w stopped next)
    unfolding go_on
    go_on-Good left n seen w true next ih f room = (room.distinct, omega (arith, room.enough))
    go_on-Good left n seen w false next ih f room = resume-Good left n seen w next ih f room

    receive-Good :
        (left n : ℕ) (seen : TextSet) (w : Walk A) (answer : Err ⊎ Page A)
        → AllGood left
        → Room bound left seen w.asked
        → Good bound (receive (λ w' c. walk fetch left (suc n) c (add c seen) w') n seen w answer)
    unfolding receive hand
    receive-Good left n seen w (inl err) ih room = (room.distinct, omega (arith, room.enough))
    receive-Good left n seen w (inr p) ih room =
        go_on-Good left n seen (hand_all w p.data_of) (hand_all w p.data_of).stopped
          (next_of n seen p) ih (followed n seen p)
          (subst (Room bound left seen) (sym (hand_all-asked w p.data_of)) room)

    walk-Good : (left : ℕ) → AllGood left
    unfolding walk hand
    walk-Good zero n c seen w new known room = (room.distinct, omega (arith, room.enough))
    walk-Good (suc left) n c seen w new known room =
        receive-Good left n seen (record w { asked = c ∷ w.asked }) (fetch n c) (walk-Good left)
          (record {
            known = now_known c seen w.asked known room.known;
            distinct = (new, room.distinct);
            enough = omega (arith, room.enough);
          })

-- Whatever the server answers and the caller does: the walk over a listing asks for no cursor twice,
-- and makes at most 10000 requests.
pub bounded_listing {ℓ} :
    {A : Type ℓ} (fetch : Fetch A) (yield : Consumer A)
    → Distinct (page_seq fetch yield).asked
      × (length (page_seq fetch yield).asked ≤ max_listing_pages)
unfolding page_seq member
bounded_listing fetch yield =
    walk-Good max_listing_pages fetch max_listing_pages 0 [] []
      (record { yield = yield; out = []; stopped = false; asked = [] }) refl refl
      (record { known = λ k m. absurd (false≢true m); distinct = tt; enough = omega arith })
