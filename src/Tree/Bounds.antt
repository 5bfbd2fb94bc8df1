-- ===== src/Tree/Bounds.antt =====
-- tree.go: the bounds of the walk, and where its nodes come from.
use omnigent_go_sdk.Prelude.{
  ℕ, suc, ◌+◌, ◌≤◌, ◌≡◌, refl, sym, subst, ◌∙◌, ◌⊎◌, inl, inr, true, not, List, [], ◌∷◌, ◌++◌,
  Option, none, some, is_empty, leb, All, All-append, All-append_inv, length, length-append, ◌<◌,
  ◌≢◌, zero, In, at_head, behind, arith, if_intro,
}
use omnigent_go_sdk.Prelude.Int.{ℤ, pos, negsuc, positive_or}
use omnigent_go_sdk.Prelude.Maps.{member}
use omnigent_go_sdk.Prelude.Text.{Text}
use omnigent_go_sdk.Errors.{Err}
use omnigent_go_sdk.Tree.{
  ChildSummary, Limits, TreeOptions, with_defaults, TreeNode, Task, Walk, Lister, settle, spawn,
  record_err, listed, child_node, take_child, advance_todo, advance, root_task, start_walk, Goes,
  goes, Comes, here, further,
}
use omnigent_go_sdk.Tree.Busy.{Below, child, deeper}

some≢none : {A : Type 0} {x : A} → some x ≢ none
some≢none e = cc

positive : (standard : ℕ) (n : ℤ) → 1 ≤ standard → 1 ≤ positive_or standard n
unfolding positive_or
positive standard (pos zero) h = h
positive standard (pos (suc n)) h = omega arith
positive standard (negsuc n) h = h

positive_nodes : (opts : TreeOptions) → 1 ≤ (with_defaults opts).nodes
unfolding with_defaults
positive_nodes opts = positive 1000 opts.max_nodes (omega arith)

module _ (list : Lister) (limits : Limits) (root : Text) where
  -- Where a node's session stands in the listings.
  pub data Place : Option ChildSummary → Text → Type 0 where
    at_root : Place none root
    under : (c : ChildSummary) → Below list root c → Place (some c) c.id

  pub record Placed (n : TreeNode) : Type 0 where
    pub place : Place n.session n.id
    pub deep : n.depth ≤ limits.depth

  abbrev pub Coming : Option (List ChildSummary) → Type 0
  Coming none = Unit
  Coming (some cs) = All (Below list root) cs

  pub record Working (t : Task) : Type 0 where
    pub placed : Placed t.node
    pub coming : Coming t.todo
    pub shallow : (t.todo ≡ none) ⊎ (t.node.depth < limits.depth)

  pub record Bounded (w : Walk) : Type 0 where
    pub nodes : All Placed w.settled
    pub tasks : All Working w.tasks
    pub few : w.visited ≤ limits.nodes
    pub each_admitted : length w.tasks ≤ w.visited

  All-Below :
      (id : Text) (session : Option ChildSummary) (children : List ChildSummary)
      → Place session id
      → list id ≡ inr children
      → (cs : List ChildSummary) → ((c : ChildSummary) → In c cs → In c children)
      → All (Below list root) cs
  All-Below id session children p e [] h = tt
  All-Below id session children p e (c ∷ cs) h = (
    below id session p e (h c (at_head cs)),
    All-Below id session children p e cs (λ d k. h d (behind c cs k)),
  )
    where
      below :
          (id : Text) (session : Option ChildSummary)
          → Place session id
          → list id ≡ inr children
          → In c children
          → Below list root c
      below _ _ at_root e k = child children c e k
      below _ _ (under p b) e k = deeper p c children b e k

  module _ (t : Task) (others : List Task) (settled : List TreeNode) (visited : ℕ)
      (first_err : Option Err) where
    abbrev rest : Walk
    rest = record { settled = settled; tasks = others; visited = visited; first_err = first_err }

    -- A walk of which one task is taken out.
    abbrev Before : Type 0
    Before =
        Working t
        × All Placed settled
        × All Working others
        × (visited ≤ limits.nodes)
        × (length others + 1 ≤ visited)

    settled-Bounded :
        (n : TreeNode) (e : Option Err)
        → Placed n
        → Before
        → Bounded (settle n (record rest { first_err = e }))
    settled-Bounded n e p b = record {
      nodes = (p, b.1);
      tasks = b.2;
      few = b.3;
      each_admitted = omega (arith, b.4);
    }

    listed-Bounded :
        (r : Err ⊎ List ChildSummary)
        → list t.node.id ≡ r
        → Before
        → Bounded (listed limits t r rest)
    unfolding listed record_err
    listed-Bounded (inl err) e b =
        settled-Bounded (record t.node { err = some err }) _
          (record { place = b.0.placed.place; deep = b.0.placed.deep }) b
    listed-Bounded (inr cs) e b =
        if_intro Bounded (leb limits.depth t.node.depth)
          (λ _.
            settled-Bounded (record t.node { truncated = not (is_empty cs) }) first_err
              (record { place = b.0.placed.place; deep = b.0.placed.deep }) b)
          (λ shallow. record {
            nodes = b.1;
            tasks = (
              record {
                placed = b.0.placed;
                coming = All-Below t.node.id t.node.session cs b.0.placed.place e cs (λ c k. k);
                shallow = inr (ground (arith, shallow));
              },
              b.2,
            );
            few = b.3;
            each_admitted = omega (arith, b.4);
          })

    -- The task with the children that are left to it.
    left_Working :
        (cs : List ChildSummary)
        → All (Below list root) cs
        → t.node.depth < limits.depth
        → Before
        → Working (record t { todo = some cs })
    left_Working cs h shallow b = record { placed = b.0.placed; coming = h; shallow = inr shallow }

    child-Placed :
        (c : ChildSummary)
        → Below list root c
        → t.node.depth < limits.depth
        → Placed (child_node t c)
    child-Placed c h shallow = record { place = under c h; deep = omega (arith, shallow) }

    -- A node of a child that is not walked.
    skipped-Bounded :
        (n : TreeNode) (cs : List ChildSummary)
        → Placed n
        → Working (record t { todo = some cs })
        → Before
        → Bounded (settle n (spawn (record t { todo = some cs }) rest))
    skipped-Bounded n cs p k b = record {
      nodes = (p, b.1);
      tasks = (k, b.2);
      few = b.3;
      each_admitted = omega (arith, b.4);
    }

    child-Bounded :
        (c : ChildSummary) (cs : List ChildSummary)
        → Below list root c
        → All (Below list root) cs
        → t.node.depth < limits.depth
        → Before
        → Bounded (take_child limits (record t { todo = some cs }) c rest)
    unfolding take_child
    child-Bounded c cs here_it hs shallow b =
        let next = child-Placed c here_it shallow in
        let left = left_Working cs hs shallow b in
        if_intro Bounded (member c.id t.ancestors)
          (λ _.
            skipped-Bounded (record (child_node t c) { repeated = true }) cs
              (record { place = next.place; deep = next.deep }) left b)
          (λ _.
            if_intro Bounded (leb limits.nodes visited)
              (λ _.
                skipped-Bounded (record (child_node t c) { truncated = true }) cs
                  (record { place = next.place; deep = next.deep }) left b)
              (λ room. record {
                nodes = b.1;
                tasks = (left, (record { placed = next; coming = tt; shallow = inl refl }, b.2));
                few = ground (arith, room);
                each_admitted = omega (arith, b.4);
              }))

    shallow_of :
        (c : ChildSummary) (cs : List ChildSummary)
        → t.todo ≡ some (c ∷ cs)
        → Working t
        → t.node.depth < limits.depth
    shallow_of c cs e w = elim w.shallow [ inl h ↦ absurd (some≢none (sym e ∙ h)) | inr h ↦ h ]

    todo-Bounded :
        (todo : Option (List ChildSummary))
        → t.todo ≡ todo
        → Before
        → Bounded (advance_todo list limits t todo rest)
    unfolding advance_todo
    todo-Bounded none e b = listed-Bounded (list t.node.id) refl b
    todo-Bounded (some []) e b = settled-Bounded t.node first_err b.0.placed b
    todo-Bounded (some (c ∷ cs)) e b =
        let coming = subst Coming e b.0.coming in
        child-Bounded c cs coming.0 coming.1 (shallow_of c cs e b.0) b

  Goes-Bounded : (v w : Walk) → Bounded v → Goes list limits v w → Bounded w
  unfolding advance
  Goes-Bounded _ _ b (goes settled before t behind_it visited first_err) =
      let (hb, ht) = All-append_inv Working before (t ∷ behind_it) b.tasks in
      todo-Bounded t (before ++ behind_it) settled visited first_err t.todo refl (
        ht.0,
        b.nodes,
        All-append Working before behind_it hb ht.1,
        b.few,
        omega (
          arith,
          b.each_admitted,
          length-append before (t ∷ behind_it),
          length-append before behind_it,
        ),
      )

  start-Bounded : 1 ≤ limits.nodes → Bounded (start_walk root)
  unfolding start_walk root_task
  start-Bounded h = record {
    nodes = tt;
    tasks = (
      record {
        placed = record { place = at_root; deep = omega arith };
        coming = tt;
        shallow = inl refl;
      },
      tt,
    );
    few = h;
    each_admitted = omega arith;
  }

  pub Comes-Bounded :
      (w : Walk) → 1 ≤ limits.nodes → Comes list limits (start_walk root) w → Bounded w
  Comes-Bounded _ h here = start-Bounded h
  Comes-Bounded _ h (further v w k g) = Goes-Bounded v w (Comes-Bounded v h k) g

-- However the goroutines interleave, under the limits that the options come to: every node of the walk
-- is the root or a session below it in the server's listings, none is deeper than the limit of depth,
-- no more sessions are visited than the limit of nodes, and no more goroutines run.
pub walk-Bounded :
    (list : Lister) (opts : TreeOptions) (root : Text) (w : Walk)
    → Comes list (with_defaults opts) (start_walk root) w
    → Bounded list (with_defaults opts) root w
walk-Bounded list opts root w h =
    Comes-Bounded list (with_defaults opts) root w (positive_nodes opts) h
