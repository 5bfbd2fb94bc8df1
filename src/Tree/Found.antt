-- ===== src/Tree/Found.antt =====
-- tree.go: work that SubtreeBusy found.
use omnigent_go_sdk.Prelude.{
  ℕ, ◌≡◌, sym, ap, ◌∙◌, inl, inr, Bool, true, false, not, ◌&&◌, List, [], ◌∷◌, Option, none, some,
  if◌then◌else◌, any, ltb, All, arith, Bool-cases, true≢false,
}
use omnigent_go_sdk.Prelude.Text.{Text}
use omnigent_go_sdk.Tree.{
  ChildSummary, child_session_busy, Limits, TreeOptions, with_defaults, TreeNode, Walk, Lister,
  start_walk, Comes, works, hides, BusyAnswer, subtree_busy,
}
use omnigent_go_sdk.Tree.Busy.{Below}
use omnigent_go_sdk.Tree.Bounds.{Place, at_root, under, Placed, walk-Bounded}

-- A session below the root that has work outstanding.
pub data Work (list : Lister) (root : Text) : Type 0 where
  work : (c : ChildSummary) → Below list root c → child_session_busy c ≡ true → Work list root

module _ (list : Lister) (limits : Limits) (root : Text) where
  working :
      (session : Option ChildSummary) (id : Text) (depth : ℕ)
      → Place list limits root session id
      → (elim session [ some child ↦ ltb 0 depth && child_session_busy child | none ↦ false ])
        ≡ true
      → Work list root
  working _ _ depth at_root h = absurd (true≢false (sym h))
  working _ _ depth (under c b) h = work c b (ground (arith, h))

  some-Work :
      (nodes : List TreeNode)
      → All (Placed list limits root) nodes
      → any works nodes ≡ true
      → Work list root
  unfolding works
  some-Work [] hs h = absurd (true≢false (sym h))
  some-Work (n ∷ nodes) hs h = elim (Bool-cases (works n)) [
    | inl e ↦ working n.session n.id n.depth hs.0.place e
    | inr e ↦ some-Work nodes hs.1 (ground (arith, e, h))
  ]

busy_found : (w : Walk) → (subtree_busy w).busy ≡ true → any works w.settled ≡ true
unfolding subtree_busy
busy_found w h = elim (Bool-cases (any works w.settled)) [
  | inl e ↦ e
  | inr e ↦ absurd (true≢false (sym h ∙ ap (λ b. (answer b).busy) e))
]
  where
    answer : Bool → BusyAnswer
    answer b =
        if b
        then record { busy = true; complete = true; err = w.first_err }
        else record { busy = false; complete = not (any hides w.settled); err = w.first_err }

-- However the goroutines interleave and whatever the walk missed: where SubtreeBusy answers that
-- something is busy, a session below the root, in the server's listings, has work outstanding.
pub subtree_busy-Work :
    (list : Lister) (opts : TreeOptions) (root : Text) (w : Walk)
    → Comes list (with_defaults opts) (start_walk root) w
    → (subtree_busy w).busy ≡ true
    → Work list root
subtree_busy-Work list opts root w h busy =
    some-Work list (with_defaults opts) root w.settled (walk-Bounded list opts root w h).nodes
      (busy_found w busy)
