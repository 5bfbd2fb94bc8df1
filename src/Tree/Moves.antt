-- ===== src/Tree/Moves.antt =====
-- tree.go: a step of a task of the walk.
use omnigent_go_sdk.Prelude.{
  ℕ, ◌≡◌, refl, sym, subst, ◌⊎◌, inl, inr, true, ◌||◌, List, [], ◌∷◌, ◌++◌, Option, none, some, any,
  leb, All, In, at_head, behind, In-right, In-insert, arith, if_intro, Bool-cases, true≢false,
}
use omnigent_go_sdk.Prelude.Maps.{TextSet, member}
use omnigent_go_sdk.Prelude.Text.{Text, same, same_iff}
use omnigent_go_sdk.Errors.{Err}
use omnigent_go_sdk.Tree.{
  ChildSummary, Limits, TreeNode, Task, Walk, Lister, record_err, listed, take_child, advance_todo,
  works, hides,
}
use omnigent_go_sdk.Tree.Steps.{
  suspect, at_work, Suspicious, Closed, Handled, by_task, done, Doing, not_listed, Sound, Clear,
  Sound-grow, Handled-grow, handled_after,
}

-- What was suspicious stays so.
pub advance-Suspicious :
    (list : Lister) (limits : Limits) (t : Task) (todo : Option (List ChildSummary)) (w : Walk)
    → (any suspect w.settled || (works t.node || any at_work w.tasks)) ≡ true
    → Suspicious (advance_todo list limits t todo w)
unfolding advance_todo listed take_child works hides record_err
advance-Suspicious list limits t none w h = by_listing (list t.node.id)
  where
    by_listing : (r : Err ⊎ List ChildSummary) → Suspicious (listed limits t r w)
    by_listing (inl err) = ground (arith, h)
    by_listing (inr cs) =
        if_intro Suspicious (leb limits.depth t.node.depth) (λ _. ground (arith, h))
          (λ _. ground (arith, h))
advance-Suspicious list limits t (some []) w h = ground (arith, h)
advance-Suspicious list limits t (some (c ∷ cs)) w h =
    if_intro Suspicious (member c.id t.ancestors) (λ _. ground (arith, h))
      (λ _.
        if_intro Suspicious (leb limits.nodes w.visited) (λ _. ground (arith, h))
          (λ _. ground (arith, h)))

pub on_path :
    (opened : List Text) (id : Text) (ancestors : TextSet)
    → All (λ id. In id opened) ancestors
    → member id ancestors ≡ true
    → In id opened
unfolding member
on_path opened id [] h m = absurd (true≢false (sym m))
on_path opened id (a ∷ ancestors) h m = elim (Bool-cases (same a id)) [
  | inl e ↦ subst (λ (z : Text). In z opened) ((same_iff a id).0 e) h.0
  | inr e ↦ on_path opened id ancestors h.1 (ground (arith, e, m))
]

module _ (list : Lister) (opened : List Text) (before behind_it : List Task) (t : Task) where
  abbrev pub others : List Task
  others = before ++ behind_it

  -- The state of the tasks before a step of `t`.
  abbrev pub Ready : Type 0
  Ready =
      ((id : Text) → In id opened → Handled list opened (before ++ t ∷ behind_it) id)
      × ((u : Task) → In u (before ++ t ∷ behind_it) → Sound list opened u)

  pub own : Ready → Sound list opened t
  own h = h.1 t (In-right before (t ∷ behind_it) t (at_head behind_it))

  other-Sound : Ready → (u : Task) → In u others → Sound list opened u
  other-Sound h u k = h.1 u (In-insert t behind_it u before k)

  -- The task is gone, and its session closed.
  pub gone_Clear :
      (settled : List TreeNode) (visited : ℕ) (first_err : Option Err)
      → Ready
      → Closed list opened t.node.id
      → Clear list opened
          (record { settled = settled; tasks = others; visited = visited; first_err = first_err })
  gone_Clear settled visited first_err h c = record {
    handled = λ id k.
        handled_after list opened before behind_it t others (λ u j. j) (done c) id (h.0 id k);
    sound = other-Sound h;
  }

  -- The task goes on with other children.
  pub on_Clear :
      (todo : Option (List ChildSummary)) (settled : List TreeNode) (visited : ℕ)
      (first_err : Option Err)
      → Ready
      → Doing list opened t.node.id todo
      → Clear list opened (record {
        settled = settled;
        tasks = record t { todo = todo } ∷ others;
        visited = visited;
        first_err = first_err;
      })
  on_Clear todo settled visited first_err h d = record {
    handled = λ id k.
        handled_after list opened before behind_it t (record t { todo = todo } ∷ others)
          (λ u j. behind (record t { todo = todo }) others j)
          (by_task (record t { todo = todo }) (at_head others) refl) id (h.0 id k);
    sound = λ u k. of_head u k;
  }
    where
      of_head : (u : Task) → In u (record t { todo = todo } ∷ others) → Sound list opened u
      of_head _ (at_head _) = record { path = (own h).path; progress = d }
      of_head u (behind _ _ k) = other-Sound h u k

-- A new task for an opened session.
pub spawn_Clear :
    (list : Lister) (opened : List Text) (node : TreeNode) (ancestors : TextSet) (tasks : List Task)
    (settled : List TreeNode) (visited : ℕ) (first_err : Option Err)
    → All (λ id. In id (node.id ∷ opened)) ancestors
    → Clear list opened
        (record { settled = settled; tasks = tasks; visited = visited; first_err = first_err })
    → ((id : Text)
        → In id (node.id ∷ opened)
        → Handled list
            (node.id ∷ opened)
            (record { node = node; ancestors = ancestors; todo = none } ∷ tasks)
            id)
      × ((u : Task)
          → In u (record { node = node; ancestors = ancestors; todo = none } ∷ tasks)
          → Sound list (node.id ∷ opened) u)
spawn_Clear list opened node ancestors tasks settled visited first_err path h = (handled, sound)
  where
    still_handled :
        (id : Text)
        → Handled list (node.id ∷ opened) tasks id
        → Handled list
            (node.id ∷ opened)
            (record { node = node; ancestors = ancestors; todo = none } ∷ tasks)
            id
    still_handled id (by_task u k e) = by_task u (behind _ tasks k) e
    still_handled id (done c) = done c

    handled :
        (id : Text)
        → In id (node.id ∷ opened)
        → Handled list
            (node.id ∷ opened)
            (record { node = node; ancestors = ancestors; todo = none } ∷ tasks)
            id
    handled _ (at_head _) =
        by_task (record { node = node; ancestors = ancestors; todo = none }) (at_head tasks) refl
    handled id (behind _ _ k) =
        still_handled id (Handled-grow list opened node.id tasks id (h.handled id k))

    sound :
        (u : Task)
        → In u (record { node = node; ancestors = ancestors; todo = none } ∷ tasks)
        → Sound list (node.id ∷ opened) u
    sound _ (at_head _) = record { path = path; progress = not_listed }
    sound u (behind _ _ k) = Sound-grow list opened node.id u (h.sound u k)
