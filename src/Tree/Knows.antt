-- ===== src/Tree/Knows.antt =====
-- tree.go: the walk's knowledge over all interleavings.
use omnigent_go_sdk.Prelude.{
  ℕ, suc, ◌≡◌, refl, sym, ap, ◌∙◌, ◌⊎◌, inl, inr, true, not, List, [], ◌∷◌, ◌++◌, Option, none,
  some, is_empty, leb, All, All-append, In, at_head, behind, arith, if_intro, Bool-cases,
  append_assoc, append-nil, any-append,
}
use omnigent_go_sdk.Prelude.Maps.{member}
use omnigent_go_sdk.Prelude.Text.{Text}
use omnigent_go_sdk.Errors.{Err}
use omnigent_go_sdk.Tree.{
  ChildSummary, child_session_busy, Limits, TreeNode, Task, Walk, Lister, settle, spawn, record_err,
  listed, child_node, take_child, advance_todo, advance, Goes, goes, works, hides,
}
use omnigent_go_sdk.Tree.Steps.{
  at_work, Idle, closed, Doing, not_listed, so_far, Known, suspicious, clear, All-grow, Idle-grow,
}
use omnigent_go_sdk.Tree.Moves.{
  advance-Suspicious, on_path, Ready, own, gone_Clear, on_Clear, spawn_Clear,
}

so_far_inv :
    (list : Lister) (opened : List Text) (id : Text) (cs : List ChildSummary)
    (todo : Option (List ChildSummary))
    → todo ≡ some cs
    → Doing list opened id todo
    → (seen : List ChildSummary) × (list id ≡ inr (seen ++ cs)) × All (Idle opened) seen
so_far_inv list opened id cs _ e not_listed = ([], cc, tt)
so_far_inv list opened id cs _ e (so_far seen cs' k hs) = (seen, cc, hs)

next_so_far :
    (list : Lister) (opened : List Text) (id : Text) (seen : List ChildSummary) (c : ChildSummary)
    (cs : List ChildSummary)
    → list id ≡ inr (seen ++ c ∷ cs)
    → All (Idle opened) seen
    → Idle opened c
    → Doing list opened id (some cs)
next_so_far list opened id seen c cs e hs h =
    so_far (seen ++ c ∷ []) cs (e ∙ ap inr (sym (append_assoc seen (c ∷ []) cs)))
      (All-append (Idle opened) seen (c ∷ []) hs (h, tt))

module _ (list : Lister) (limits : Limits) (root : Text) where
  module _ (opened : List Text) (in_root : In root opened) (before behind_it : List Task) (t : Task)
      (settled : List TreeNode) (visited : ℕ) (first_err : Option Err) where
    abbrev rest : Walk
    rest = record {
      settled = settled;
      tasks = before ++ behind_it;
      visited = visited;
      first_err = first_err;
    }

    abbrev Now : Type 0
    Now = Ready list opened before behind_it t

    listed-Known :
        (r : Err ⊎ List ChildSummary)
        → list t.node.id ≡ r
        → Now
        → Known list root (listed limits t r rest)
    unfolding listed hides record_err
    listed-Known (inl err) e h = suspicious (ground arith)
    listed-Known (inr cs) e h =
        if_intro (Known list root) (leb limits.depth t.node.depth) (λ _. capped cs e)
          (λ _. clear opened in_root (
            on_Clear list opened before behind_it t (some cs) settled visited first_err h
              (so_far [] cs e tt)))
      where
        capped :
            (cs : List ChildSummary)
            → list t.node.id ≡ inr cs
            → Known list root (settle (record t.node { truncated = not (is_empty cs) }) rest)
        capped [] e =
            clear opened in_root
              (gone_Clear list opened before behind_it t _ visited first_err h (closed [] e tt))
        capped (c ∷ cs) e = suspicious (ground arith)

    ended-Known : Doing list opened t.node.id (some []) → Now → Known list root (settle t.node rest)
    ended-Known d h =
        let (seen, e, hs) = so_far_inv list opened t.node.id [] (some []) refl d in
        clear opened in_root (
          gone_Clear list opened before behind_it t _ visited first_err h
            (closed seen (e ∙ ap inr (append-nil seen)) hs))

    -- A child that is met again on its path.
    repeated-Known :
        (c : ChildSummary) (cs : List ChildSummary)
        → Doing list opened t.node.id (some (c ∷ cs))
        → member c.id t.ancestors ≡ true
        → Now
        → Known list root (
            settle
              (record (child_node t c) { repeated = true })
              (spawn (record t { todo = some cs }) rest))
    unfolding works
    repeated-Known c cs d m h =
        let (seen, e, hs) = so_far_inv list opened t.node.id (c ∷ cs) (some (c ∷ cs)) refl d in
        elim (Bool-cases (child_session_busy c)) [
          | inl busy ↦ suspicious (ground (arith, busy))
          | inr idle ↦ clear opened in_root (
              on_Clear list opened before behind_it t (some cs) _ visited first_err h (
                next_so_far list opened t.node.id seen c cs e hs (
                  idle,
                  on_path opened c.id t.ancestors (own list opened before behind_it t h).path m,
                )))
        ]

    -- A child that is admitted.
    admitted-Known :
        (c : ChildSummary) (cs : List ChildSummary)
        → Doing list opened t.node.id (some (c ∷ cs))
        → Now
        → Known list root (
            spawn
              (record t { todo = some cs })
              (spawn
                (record { node = child_node t c; ancestors = c.id ∷ t.ancestors; todo = none })
                (record rest { visited = suc visited })))
    unfolding works
    admitted-Known c cs d h =
        let (seen, e, hs) = so_far_inv list opened t.node.id (c ∷ cs) (some (c ∷ cs)) refl d in
        elim (Bool-cases (child_session_busy c)) [
          | inl busy ↦ suspicious (ground (arith, busy))
          | inr idle ↦ clear (c.id ∷ opened) (behind c.id opened in_root) (
              on_Clear list (c.id ∷ opened)
                (record { node = child_node t c; ancestors = c.id ∷ t.ancestors; todo = none }
                  ∷ before)
                behind_it t (some cs) settled (suc visited) first_err
                (spawn_Clear list opened (child_node t c) (c.id ∷ t.ancestors)
                  (before ++ t ∷ behind_it) settled visited first_err
                  (
                    at_head opened,
                    All-grow opened c.id t.ancestors (own list opened before behind_it t h).path,
                  )
                  (record { handled = h.0; sound = h.1 }))
                (next_so_far list (c.id ∷ opened) t.node.id seen c cs e
                  (Idle-grow opened c.id seen hs) (idle, at_head opened)))
        ]

    child-Known :
        (c : ChildSummary) (cs : List ChildSummary)
        → Doing list opened t.node.id (some (c ∷ cs))
        → Now
        → Known list root (take_child limits (record t { todo = some cs }) c rest)
    unfolding take_child hides
    child-Known c cs d h =
        if_intro (Known list root) (member c.id t.ancestors) (λ m. repeated-Known c cs d m h)
          (λ _.
            if_intro (Known list root) (leb limits.nodes visited) (λ _. suspicious (ground arith))
              (λ _. admitted-Known c cs d h))

    clear-Known :
        (todo : Option (List ChildSummary))
        → t.todo ≡ todo
        → Doing list opened t.node.id todo
        → Now
        → Known list root (advance_todo list limits t todo rest)
    unfolding advance_todo
    clear-Known none e d h = listed-Known (list t.node.id) refl h
    clear-Known (some []) e d h = ended-Known d h
    clear-Known (some (c ∷ cs)) e d h = child-Known c cs d h

  pub Goes-Known : (v w : Walk) → Known list root v → Goes list limits v w → Known list root w
  unfolding advance
  Goes-Known _ _ (suspicious s) (goes settled before t behind_it visited first_err) = suspicious (
      advance-Suspicious list limits t t.todo
        (record {
          settled = settled;
          tasks = before ++ behind_it;
          visited = visited;
          first_err = first_err;
        })
        (ground (
          arith,
          s,
          any-append at_work before (t ∷ behind_it),
          any-append at_work before behind_it,
        )))
  Goes-Known _ _ (clear opened in_root c) (goes settled before t behind_it visited first_err) =
      clear-Known opened in_root before behind_it t settled visited first_err t.todo refl
        (own list opened before behind_it t (c.handled, c.sound)).progress (c.handled, c.sound)
