-- ===== src/Tree/Steps.antt =====
-- tree.go: what every interleaving of the walk keeps, for the answer of SubtreeBusy.
use omnigent_go_sdk.Prelude.{
  ◌≡◌, sym, ap, subst, ◌∙◌, inl, inr, Bool, true, false, ◌||◌, List, [], ◌∷◌, ◌++◌, Option, none,
  some, any, All, In, behind, In-middle,
}
use omnigent_go_sdk.Prelude.Text.{Text}
use omnigent_go_sdk.Tree.{
  ChildSummary, child_session_busy, TreeNode, Task, Walk, Lister, works, hides,
}

abbrev pub suspect : TreeNode → Bool
suspect node = works node || hides node

abbrev pub at_work : Task → Bool
at_work t = works t.node

-- A node was seen that is busy or hides its children.
abbrev pub Suspicious : Walk → Type 0
Suspicious w = (any suspect w.settled || any at_work w.tasks) ≡ true

-- A child of an opened session: it is not busy, and is itself opened.
abbrev pub Idle : List Text → ChildSummary → Type 0
Idle opened child = (child_session_busy child ≡ false) × In child.id opened

-- The session's children were all seen.
pub data Closed (list : Lister) (opened : List Text) (id : Text) : Type 0 where
  closed :
      (children : List ChildSummary)
      → list id ≡ inr children
      → All (Idle opened) children
      → Closed list opened id

-- A session that is opened has a task, or is closed.
pub data Handled (list : Lister) (opened : List Text) (tasks : List Task) (id : Text) : Type 0 where
  by_task : (t : Task) → In t tasks → t.node.id ≡ id → Handled list opened tasks id
  done : Closed list opened id → Handled list opened tasks id

-- The children that a task has left behind.
pub data Doing (list : Lister) (opened : List Text) (id : Text)
    : Option (List ChildSummary) → Type 0 where
  not_listed : Doing list opened id none
  so_far :
      (seen children : List ChildSummary)
      → list id ≡ inr (seen ++ children)
      → All (Idle opened) seen
      → Doing list opened id (some children)

pub record Sound (list : Lister) (opened : List Text) (t : Task) : Type 0 where
  pub path : All (λ id. In id opened) t.ancestors
  pub progress : Doing list opened t.node.id t.todo

-- Nothing suspicious was seen, and all that was opened is handled.
pub record Clear (list : Lister) (opened : List Text) (w : Walk) : Type 0 where
  pub handled : (id : Text) → In id opened → Handled list opened w.tasks id
  pub sound : (t : Task) → In t w.tasks → Sound list opened t

pub data Known (list : Lister) (root : Text) (w : Walk) : Type 0 where
  suspicious : Suspicious w → Known list root w
  clear : (opened : List Text) → In root opened → Clear list opened w → Known list root w

-- The parts grow with what is opened.
pub All-grow :
    (opened : List Text) (new : Text) (ids : List Text)
    → All (λ id. In id opened) ids
    → All (λ id. In id (new ∷ opened)) ids
All-grow opened new [] h = tt
All-grow opened new (id ∷ ids) h = (behind new opened h.0, All-grow opened new ids h.1)

pub Idle-grow :
    (opened : List Text) (new : Text) (children : List ChildSummary)
    → All (Idle opened) children
    → All (Idle (new ∷ opened)) children
Idle-grow opened new [] h = tt
Idle-grow opened new (c ∷ cs) h = ((h.0.0, behind new opened h.0.1), Idle-grow opened new cs h.1)

module _ (list : Lister) (opened : List Text) (new : Text) where
  Closed-grow : (id : Text) → Closed list opened id → Closed list (new ∷ opened) id
  Closed-grow id (closed cs e h) = closed cs e (Idle-grow opened new cs h)

  pub Sound-grow : (t : Task) → Sound list opened t → Sound list (new ∷ opened) t
  Sound-grow t s = record {
    path = All-grow opened new t.ancestors s.path;
    progress = doing t.todo s.progress;
  }
    where
      doing :
          (todo : Option (List ChildSummary))
          → Doing list opened t.node.id todo
          → Doing list (new ∷ opened) t.node.id todo
      doing _ not_listed = not_listed
      doing _ (so_far seen cs e h) = so_far seen cs e (Idle-grow opened new seen h)

  pub Handled-grow :
      (tasks : List Task) (id : Text)
      → Handled list opened tasks id
      → Handled list (new ∷ opened) tasks id
  Handled-grow tasks id (by_task t h e) = by_task t h e
  Handled-grow tasks id (done c) = done (Closed-grow id c)

-- What is handled by the task that moves is handled by what it leaves, and the others as before.
pub handled_after :
    (list : Lister) (opened : List Text) (before behind_it : List Task) (t : Task)
    (tasks : List Task)
    → ((u : Task) → In u (before ++ behind_it) → In u tasks)
    → Handled list opened tasks t.node.id
    → (id : Text) → Handled list opened (before ++ t ∷ behind_it) id
    → Handled list opened tasks id
handled_after list opened before behind_it t tasks keeps now id (done c) = done c
handled_after list opened before behind_it t tasks keeps now id (by_task u h e) =
    elim (In-middle t behind_it u before h) [
      | inl moved ↦
          subst (Handled list opened tasks) (ap (λ (v : Task). v.node.id) (sym moved) ∙ e) now
      | inr other ↦ by_task u (keeps u other) e
    ]
