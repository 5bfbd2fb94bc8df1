-- ===== src/Tree/Busy.antt =====
-- tree.go: the answer of SubtreeBusy against the server's listings.
use omnigent_go_sdk.Prelude.{
  inr_injective, ◌≡◌, refl, sym, ap, subst, ◌∙◌, inl, inr, Bool, true, false, not, ◌||◌, List, [],
  ◌∷◌, if◌then◌else◌, any, All, In, at_head, behind, All-In, arith, Bool-cases, true≢false,
}
use omnigent_go_sdk.Prelude.Text.{Text}
use omnigent_go_sdk.Tree.{
  ChildSummary, child_session_busy, Limits, TreeNode, Task, Walk, Lister, root_task, start_walk,
  Comes, here, further, works, hides, BusyAnswer, subtree_busy,
}
use omnigent_go_sdk.Tree.Steps.{
  suspect, at_work, Idle, Closed, closed, Handled, by_task, done, not_listed, Sound, Known,
  suspicious, clear,
}
use omnigent_go_sdk.Tree.Knows.{Goes-Known}

-- The sessions below another, as the listings have them.
pub data Below (list : Lister) (root : Text) : ChildSummary → Type 0 where
  child :
      (children : List ChildSummary) (c : ChildSummary)
      → list root ≡ inr children
      → In c children
      → Below list root c
  deeper :
      (p c : ChildSummary) (children : List ChildSummary)
      → Below list root p
      → list p.id ≡ inr children
      → In c children
      → Below list root c

pub Comes-Known :
    (list : Lister) (limits : Limits) (root : Text) (w : Walk)
    → Comes list limits (start_walk root) w
    → Known list root w
unfolding start_walk root_task
Comes-Known list limits root _ here =
    clear (root ∷ []) (at_head [])
      (record { handled = λ id k. at_root id k; sound = λ u k. sound u k })
  where
    at_root : (id : Text) → In id (root ∷ []) → Handled list (root ∷ []) (root_task root ∷ []) id
    at_root _ (at_head _) = by_task (root_task root) (at_head []) refl
    at_root id (behind _ _ k) = elim k [ ]

    sound : (u : Task) → In u (root_task root ∷ []) → Sound list (root ∷ []) u
    sound _ (at_head _) = record { path = (at_head [], tt); progress = not_listed }
    sound u (behind _ _ k) = elim k [ ]
Comes-Known list limits root _ (further v w h g) =
    Goes-Known list limits root v w (Comes-Known list limits root v h) g

not_suspect :
    (nodes : List TreeNode)
    → any works nodes ≡ false
    → any hides nodes ≡ false
    → any suspect nodes ≡ false
not_suspect [] h k = refl
not_suspect (n ∷ nodes) h k =
    let rest = not_suspect nodes (ground (arith, h)) (ground (arith, k)) in
    ground (arith, h, k, rest)

answered_no :
    (w : Walk)
    → (subtree_busy w).busy ≡ false
    → (subtree_busy w).complete ≡ true
    → any suspect w.settled ≡ false
unfolding subtree_busy
answered_no w b c = elim (Bool-cases (any works w.settled)) [
  | inl e ↦ absurd (true≢false (busy_of e b))
  | inr e ↦ not_suspect w.settled e (ground (arith, complete_of e c))
]
  where
    answer : Bool → BusyAnswer
    answer b =
        if b
        then record { busy = true; complete = true; err = w.first_err }
        else record { busy = false; complete = not (any hides w.settled); err = w.first_err }

    busy_of :
        any works w.settled ≡ true → (answer (any works w.settled)).busy ≡ false → true ≡ false
    busy_of e b = sym (ap (λ z. (answer z).busy) e) ∙ b

    complete_of :
        any works w.settled ≡ false
        → (answer (any works w.settled)).complete ≡ true
        → not (any hides w.settled) ≡ true
    complete_of e c = sym (ap (λ z. (answer z).complete) e) ∙ c

module _ (list : Lister) (opened : List Text) (tasks : List Task) (none_left : tasks ≡ []) where
  finished : (id : Text) → Handled list opened tasks id → Closed list opened id
  finished id (by_task t k e) = elim (subst (In t) none_left k) [ ]
  finished id (done c) = c

  Idle-child :
      (id : Text) (children : List ChildSummary) (c : ChildSummary)
      → Closed list opened id
      → list id ≡ inr children
      → In c children
      → Idle opened c
  Idle-child id children c (closed cs e hs) k at =
      All-In (Idle opened) c children (subst (All (Idle opened)) (inr_injective (sym e ∙ k)) hs) at

  Below-Idle :
      (root : Text)
      → In root opened
      → ((id : Text) → In id opened → Handled list opened tasks id)
      → (c : ChildSummary) → Below list root c
      → Idle opened c
  Below-Idle root h handled _ (child children c e at) =
      Idle-child root children c (finished root (handled root h)) e at
  Below-Idle root h handled _ (deeper p c children b e at) =
      Idle-child p.id children c (finished p.id (handled p.id (Below-Idle root h handled p b).1)) e
        at

verdict :
    (list : Lister) (root : Text) (w : Walk)
    → w.tasks ≡ []
    → any suspect w.settled ≡ false
    → Known list root w
    → (c : ChildSummary) → Below list root c
    → child_session_busy c ≡ false
verdict list root w none_left clean (suspicious s) c b = absurd (
    true≢false (
      sym s
      ∙ ap (λ (ts : List Task). any suspect w.settled || any at_work ts) none_left
      ∙ ground (arith, clean)))
verdict list root w none_left clean (clear opened in_root k) c b =
    (Below-Idle list opened w.tasks none_left root in_root k.handled c b).0

-- However the goroutines of the walk interleave: where the walk has ended and SubtreeBusy answers
-- that nothing is busy and that the walk saw everything, no session below the root, in the server's
-- listings, is busy: not even below one that was met again on its path.
pub subtree_busy-complete :
    (list : Lister) (limits : Limits) (root : Text) (w : Walk)
    → Comes list limits (start_walk root) w
    → w.tasks ≡ []
    → (subtree_busy w).busy ≡ false
    → (subtree_busy w).complete ≡ true
    → (c : ChildSummary) → Below list root c
    → child_session_busy c ≡ false
subtree_busy-complete list limits root w h ended busy complete =
    verdict list root w ended (answered_no w busy complete) (Comes-Known list limits root w h)
