-- ===== src/Tree/Ends.antt =====
-- tree.go: that the walk ends.
use omnigent_go_sdk.Prelude.{
  ℕ, suc, ◌+◌, ◌≤◌, ◌-◌, ◌≡◌, refl, subst, ◌⊎◌, inl, inr, List, [], ◌∷◌, ◌++◌, Option, none, some,
  leb, length, ◌<◌, zero, arith, if_intro,
}
use omnigent_go_sdk.Prelude.Maps.{member}
use omnigent_go_sdk.Prelude.Text.{Text}
use omnigent_go_sdk.Errors.{Err}
use omnigent_go_sdk.Tree.{
  ChildSummary, Limits, TreeNode, Task, Walk, Lister, record_err, listed, take_child, advance_todo,
  advance, Goes, goes,
}

-- What a task has before it, its new tasks aside.
abbrev work_of : Err ⊎ List ChildSummary → ℕ
work_of (inl err) = 1
work_of (inr cs) = 2 + length cs

abbrev work_left : Lister → Text → Option (List ChildSummary) → ℕ
work_left list id none = work_of (list id)
work_left list id (some cs) = 1 + length cs

abbrev total : Lister → List Task → ℕ
total list [] = 0
total list (t ∷ ts) = work_left list t.node.id t.todo + total list ts

total-append :
    (list : Lister) (xs ys : List Task) → total list (xs ++ ys) ≡ total list xs + total list ys
total-append list [] ys = omega arith
total-append list (x ∷ xs) ys = omega (arith, total-append list xs ys)

-- A step takes work away, or admits a session.
abbrev Nearer : Lister → Limits → (visited before : ℕ) → Walk → Type 0
Nearer list limits visited before w =
    ((w.visited ≡ visited) × (total list w.tasks < before))
    ⊎ ((w.visited ≡ visited + 1) × (visited < limits.nodes))

module _ (list : Lister) (limits : Limits) (t : Task) (w : Walk) where
  listed-Nearer :
      (r : Err ⊎ List ChildSummary)
      → Nearer list limits w.visited (work_of r + total list w.tasks) (listed limits t r w)
  unfolding listed record_err
  listed-Nearer (inl err) = inl (refl, omega arith)
  listed-Nearer (inr cs) =
      if_intro (Nearer list limits w.visited ((2 + length cs) + total list w.tasks))
        (leb limits.depth t.node.depth) (λ _. inl (refl, omega arith))
        (λ _. inl (refl, omega arith))

  child-Nearer :
      (c : ChildSummary) (cs : List ChildSummary)
      → Nearer list limits w.visited
          ((1 + suc (length cs)) + total list w.tasks)
          (take_child limits (record t { todo = some cs }) c w)
  unfolding take_child
  child-Nearer c cs =
      let goal = Nearer list limits w.visited ((1 + suc (length cs)) + total list w.tasks) in
      if_intro goal (member c.id t.ancestors) (λ _. inl (refl, omega arith))
        (λ _.
          if_intro goal (leb limits.nodes w.visited) (λ _. inl (refl, omega arith))
            (λ room. inr (omega arith, ground (arith, room))))

  todo-Nearer :
      (todo : Option (List ChildSummary))
      → Nearer list limits w.visited
          (work_left list t.node.id todo + total list w.tasks)
          (advance_todo list limits t todo w)
  unfolding advance_todo
  todo-Nearer none = listed-Nearer (list t.node.id)
  todo-Nearer (some []) = inl (refl, omega arith)
  todo-Nearer (some (c ∷ cs)) = child-Nearer c cs

Goes-Nearer :
    (list : Lister) (limits : Limits) (w v : Walk)
    → Goes list limits w v
    → Nearer list limits w.visited (total list w.tasks) v
unfolding advance
Goes-Nearer list limits _ _ (goes settled before t behind_it visited first_err) =
    subst
      (λ n. Nearer list limits visited n (
        advance list limits t (record {
          settled = settled;
          tasks = before ++ behind_it;
          visited = visited;
          first_err = first_err;
        })))
      (omega (arith, total-append list before (t ∷ behind_it), total-append list before behind_it))
      (todo-Nearer list limits t
        (record {
          settled = settled;
          tasks = before ++ behind_it;
          visited = visited;
          first_err = first_err;
        })
        t.todo)

-- No goroutine is left, or one can go on, and whichever does comes to such an end.
pub data Ends (list : Lister) (limits : Limits) : Walk → Type 0 where
  all_returned : (w : Walk) → w.tasks ≡ [] → Ends list limits w
  goes_on :
      (w v : Walk)
      → Goes list limits w v
      → ((u : Walk) → Goes list limits w u → Ends list limits u)
      → Ends list limits w

module _ (list : Lister) (limits : Limits) where
  or_returned :
      (settled : List TreeNode) (tasks : List Task) (visited : ℕ) (first_err : Option Err)
      → ((u : Walk)
          → Goes list limits
              (record {
                settled = settled;
                tasks = tasks;
                visited = visited;
                first_err = first_err;
              })
              u
          → Ends list limits u)
      → Ends list limits
          (record { settled = settled; tasks = tasks; visited = visited; first_err = first_err })
  or_returned settled [] visited first_err h = all_returned _ refl
  or_returned settled (t ∷ tasks) visited first_err h =
      goes_on _ _ (goes settled [] t tasks visited first_err) h

  by_work :
      (room : ℕ)
      → ((v : Walk) → (limits.nodes - v.visited) + 1 ≤ room → Ends list limits v)
      → (work : ℕ) (w : Walk) → limits.nodes - w.visited ≤ room
      → total list w.tasks ≤ work
      → Ends list limits w
  by_work room admitted zero w h k = or_returned w.settled w.tasks w.visited w.first_err (λ v g.
      elim (Goes-Nearer list limits w v g) [
        | inl (e, l) ↦ absurd (omega (arith, l, k))
        | inr (e, l) ↦ admitted v (omega (arith, e, l, h))
      ])
  by_work room admitted (suc work) w h k =
      or_returned w.settled w.tasks w.visited w.first_err (λ v g.
        elim (Goes-Nearer list limits w v g) [
          | inl (e, l) ↦ by_work room admitted work v (omega (arith, e, h)) (omega (arith, l, k))
          | inr (e, l) ↦ admitted v (omega (arith, e, l, h))
        ])

  by_room : (room : ℕ) (w : Walk) → limits.nodes - w.visited ≤ room → Ends list limits w
  by_room zero w h =
      by_work zero (λ v k. absurd (omega (arith, k))) (total list w.tasks) w h (omega arith)
  by_room (suc room) w h =
      by_work (suc room) (λ v k. by_room room v (omega (arith, k))) (total list w.tasks) w h
        (omega arith)

-- Whatever the listings hold, cycles included: the walk ends in every interleaving, and no goroutine
-- of it is ever stuck before that.
pub walk-Ends : (list : Lister) (limits : Limits) (w : Walk) → Ends list limits w
walk-Ends list limits w = by_room list limits (limits.nodes - w.visited) w (omega arith)
