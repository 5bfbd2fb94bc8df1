-- ===== src/Tree/Examples.antt =====
-- A root with one child, whose summary says whether it is busy.
use omnigent_go_sdk.Prelude.{
  ℕ, refl, inr, Bool, true, false, List, [], ◌∷◌, Option, none, some, if◌then◌else◌,
}
use omnigent_go_sdk.Prelude.Int.{pos, positive_or}
use omnigent_go_sdk.Prelude.Maps.{member}
use omnigent_go_sdk.Prelude.Text.{Text, same}
use omnigent_go_sdk.Tree.{
  ChildSummary, TreeOptions, with_defaults, TreeNode, Task, Walk, Lister, listed, child_node,
  take_child, advance_todo, advance, root_task, start_walk, goes, Comes, here, further,
  subtree_busy,
}
use omnigent_go_sdk.Tree.Bounds.{Bounded, walk-Bounded}
use omnigent_go_sdk.Tree.Verdict.{Verdict, subtree_busy-Verdict}
use omnigent_go_sdk.Tree.Ends.{Ends, walk-Ends}

abbrev root : Text
root = 114 ∷ []

abbrev only_child : Bool → ChildSummary
only_child busy = record { id = 97 ∷ []; busy = some busy; current_task_status = none }

abbrev one_child : Bool → Lister
one_child busy id = if same id root then inr (only_child busy ∷ []) else inr []

abbrev standard : TreeOptions
standard = record { max_depth = pos 0; concurrency = pos 0; max_nodes = pos 0 }

abbrev at_top : Option (List ChildSummary) → Task
at_top todo = record {
  node = record {
    session = none;
    id = root;
    above = [];
    depth = 0;
    truncated = false;
    repeated = false;
    err = none;
  };
  ancestors = root ∷ [];
  todo = todo;
}

abbrev at_child : Bool → Option (List ChildSummary) → Task
at_child busy todo = record {
  node = child_node (at_top none) (only_child busy);
  ancestors = (97 ∷ []) ∷ root ∷ [];
  todo = todo;
}

abbrev walking : List TreeNode → List Task → ℕ → Walk
walking settled tasks visited = record {
  settled = settled;
  tasks = tasks;
  visited = visited;
  first_err = none;
}

abbrev both : Bool → Walk
both busy = walking ((at_child busy none).node ∷ (at_top none).node ∷ []) [] 2

both-Comes :
    (busy : Bool) → Comes (one_child busy) (with_defaults standard) (start_walk root) (both busy)
unfolding start_walk root_task advance advance_todo listed take_child with_defaults positive_or
    member same
both-Comes busy =
    further (walking ((at_top none).node ∷ []) (at_child busy (some []) ∷ []) 2) _
      (further (walking ((at_top none).node ∷ []) (at_child busy none ∷ []) 2) _
        (further (walking [] (at_top (some []) ∷ at_child busy none ∷ []) 2) _
          (further (walking [] (at_top (some (only_child busy ∷ [])) ∷ []) 1) _
            (further (start_walk root) _ here (goes [] [] (at_top none) [] 1 none))
            (goes [] [] (at_top (some (only_child busy ∷ []))) [] 1 none))
          (goes [] [] (at_top (some [])) (at_child busy none ∷ []) 2 none))
        (goes ((at_top none).node ∷ []) [] (at_child busy none) [] 2 none))
      (goes ((at_top none).node ∷ []) [] (at_child busy (some [])) [] 2 none)

subtree_busy-Verdict_example : Verdict (one_child false) root (subtree_busy (both false))
subtree_busy-Verdict_example =
    subtree_busy-Verdict (one_child false) standard root (both false) (both-Comes false) refl

walk-Bounded_example : Bounded (one_child true) (with_defaults standard) root (both true)
walk-Bounded_example = walk-Bounded (one_child true) standard root (both true) (both-Comes true)

walk-Ends_example : Ends (one_child true) (with_defaults standard) (start_walk root)
walk-Ends_example = walk-Ends (one_child true) (with_defaults standard) (start_walk root)
