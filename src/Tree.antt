-- ===== src/Tree.antt =====
-- tree.go: the bounded walk over a session's subtree. A goroutine of `walk` is a task, which holds
-- its node until it returns; what a task does between two accesses of shared state is one step, and
-- any task may take the next. The listing of a session's children is a parameter: it is the whole of
-- `listChildren`, whose pages Listing models.
pub mod Steps
pub mod Moves
pub mod Knows
pub mod Busy
pub mod Bounds
pub mod Found
pub mod Verdict
pub mod Ends
mod Examples
use omnigent_go_sdk.Prelude.{
  ℕ, suc, ◌+◌, ◌⊎◌, inl, inr, Bool, true, false, not, ◌||◌, ◌&&◌, List, [], ◌∷◌, ◌++◌, Option, none,
  some, if◌then◌else◌, is_empty, any, ltb, leb,
}
use omnigent_go_sdk.Prelude.Int.{ℤ, positive_or}
use omnigent_go_sdk.Prelude.Maps.{TextSet, member}
use omnigent_go_sdk.Prelude.Text.{Text, codes, same}
use omnigent_go_sdk.Errors.{Err, invalid_argument}

-- What the walk reads of a ChildSessionSummary.
pub record ChildSummary : Type 0 where
  pub id : Text
  pub busy : Option Bool
  pub current_task_status : Option Text

unfoldable pub is_terminal_task_status : Text → Bool
is_terminal_task_status status =
    any (same status) (codes "completed" ∷ codes "failed" ∷ codes "cancelled" ∷ [])

unfoldable pub status_busy : Option Text → Bool
unfolding is_terminal_task_status
status_busy none = false
status_busy (some status) = not (is_terminal_task_status status)

unfoldable pub child_session_busy : ChildSummary → Bool
unfolding status_busy
child_session_busy child = elim child.busy [
  | some busy ↦ busy
  | none ↦ status_busy child.current_task_status
]

pub record TreeOptions : Type 0 where
  pub max_depth : ℤ
  pub concurrency : ℤ
  pub max_nodes : ℤ

pub record Limits : Type 0 where
  pub depth : ℕ
  pub requests : ℕ
  pub nodes : ℕ

unfoldable pub with_defaults : TreeOptions → Limits
with_defaults o = record {
  depth = positive_or 3 o.max_depth;
  requests = positive_or 4 o.concurrency;
  nodes = positive_or 1000 o.max_nodes;
}

-- A node and the ids of the path above it, its parent's first, in place of the parent's pointer to
-- it. The root's summary is none.
pub record TreeNode : Type 0 where
  pub session : Option ChildSummary
  pub id : Text
  pub above : List Text
  pub depth : ℕ
  pub truncated : Bool
  pub repeated : Bool
  pub err : Option Err

-- A goroutine: its children are none before its listing is drained, and then those to come.
pub record Task : Type 0 where
  pub node : TreeNode
  pub ancestors : TextSet
  pub todo : Option (List ChildSummary)

pub record Walk : Type 0 where
  -- the nodes whose goroutine has returned, and those that have none
  pub settled : List TreeNode
  pub tasks : List Task
  pub visited : ℕ
  pub first_err : Option Err

abbrev pub Lister : Type 0
Lister = Text → Err ⊎ List ChildSummary

abbrev pub settle : TreeNode → Walk → Walk
settle node w = record w { settled = node ∷ w.settled }

abbrev pub spawn : Task → Walk → Walk
spawn t w = record w { tasks = t ∷ w.tasks }

unfoldable pub record_err : Err → Walk → Walk
record_err err w = record w {
  first_err = (elim w.first_err [ none ↦ some err | some old ↦ some old ]);
}

-- The listing of a task's node, which is drained.
unfoldable pub listed : Limits → Task → Err ⊎ List ChildSummary → Walk → Walk
unfolding record_err
listed limits t (inl err) w = settle (record t.node { err = some err }) (record_err err w)
listed limits t (inr children) w =
    if leb limits.depth t.node.depth
    then settle (record t.node { truncated = not (is_empty children) }) w
    else spawn (record t { todo = some children }) w

abbrev pub child_node : Task → ChildSummary → TreeNode
child_node t child = record {
  session = some child;
  id = child.id;
  above = t.node.id ∷ t.node.above;
  depth = suc t.node.depth;
  truncated = false;
  repeated = false;
  err = none;
}

-- The switch for one child, `t` being the task with the children behind it.
unfoldable pub take_child : Limits → Task → ChildSummary → Walk → Walk
take_child limits t child w =
    if member child.id t.ancestors
    then settle (record (child_node t child) { repeated = true }) (spawn t w)
    else if leb limits.nodes w.visited
    then settle (record (child_node t child) { truncated = true }) (spawn t w)
    else spawn t (
        spawn
          (record { node = child_node t child; ancestors = child.id ∷ t.ancestors; todo = none })
          (record w { visited = suc w.visited }))

unfoldable pub advance_todo : Lister → Limits → Task → Option (List ChildSummary) → Walk → Walk
unfolding listed take_child
advance_todo list limits t none w = listed limits t (list t.node.id) w
advance_todo list limits t (some []) w = settle t.node w
advance_todo list limits t (some (child ∷ children)) w =
    take_child limits (record t { todo = some children }) child w

-- The next step of a task, which is not among the walk's tasks.
unfoldable pub advance : Lister → Limits → Task → Walk → Walk
unfolding advance_todo
advance list limits t w = advance_todo list limits t t.todo w

unfoldable pub root_task : Text → Task
root_task session_id = record {
  node = record {
    session = none;
    id = session_id;
    above = [];
    depth = 0;
    truncated = false;
    repeated = false;
    err = none;
  };
  ancestors = session_id ∷ [];
  todo = none;
}

unfoldable pub start_walk : Text → Walk
unfolding root_task
start_walk session_id = record {
  settled = [];
  tasks = root_task session_id ∷ [];
  visited = 1;
  first_err = none;
}

-- Any task may take the next step.
pub data Goes (list : Lister) (limits : Limits) : Walk → Walk → Type 0 where
  goes :
      (settled : List TreeNode) (before : List Task) (t : Task) (behind : List Task) (visited : ℕ)
      (first_err : Option Err)
      → Goes list limits
          (record {
            settled = settled;
            tasks = before ++ t ∷ behind;
            visited = visited;
            first_err = first_err;
          })
          (advance list limits t (record {
            settled = settled;
            tasks = before ++ behind;
            visited = visited;
            first_err = first_err;
          }))

pub data Comes (list : Lister) (limits : Limits) (start : Walk) : Walk → Type 0 where
  here : Comes list limits start start
  further :
      (v w : Walk) → Comes list limits start v → Goes list limits v w → Comes list limits start w

-- The two tests of `visit`.
unfoldable pub works : TreeNode → Bool
works node = elim node.session [
  | some child ↦ ltb 0 node.depth && child_session_busy child
  | none ↦ false
]

unfoldable pub hides : TreeNode → Bool
hides node = node.truncated || (elim node.err [ some err ↦ true | none ↦ false ])

pub record BusyAnswer : Type 0 where
  pub busy : Bool
  pub complete : Bool
  pub err : Option Err

-- `SubtreeBusy`, over the nodes of a walk that has ended.
unfoldable pub subtree_busy : Walk → BusyAnswer
unfolding works hides
subtree_busy w =
    if any works w.settled
    then record { busy = true; complete = true; err = w.first_err }
    else record { busy = false; complete = not (any hides w.settled); err = w.first_err }

-- `SubtreeBusy` with the guard of `ChildrenTree`, which returns no tree where no session is named.
unfoldable pub subtree_answer : (session_id : Text) → Walk → BusyAnswer
unfolding subtree_busy
subtree_answer session_id w =
    if is_empty session_id
    then record {
      busy = false;
      complete = false;
      err = some (invalid_argument (codes "sessionID is required"));
    }
    else subtree_busy w
