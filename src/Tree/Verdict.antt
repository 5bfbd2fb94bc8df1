-- ===== src/Tree/Verdict.antt =====
-- tree.go: the answer of SubtreeBusy as a whole.
use omnigent_go_sdk.Prelude.{◌≡◌, false≢true, refl, Bool, true, false, [], Option, if_intro, any}
use omnigent_go_sdk.Prelude.Text.{Text}
use omnigent_go_sdk.Errors.{Err}
use omnigent_go_sdk.Tree.{
  ChildSummary, child_session_busy, TreeOptions, with_defaults, Walk, Lister, start_walk, Comes,
  works, BusyAnswer, subtree_busy,
}
use omnigent_go_sdk.Tree.Busy.{Below, subtree_busy-complete}
use omnigent_go_sdk.Tree.Found.{Work, subtree_busy-Work}

-- What an answer says of the server's listings: work that is there, no work anywhere, or nothing.
pub data Verdict (list : Lister) (root : Text) : BusyAnswer → Type 0 where
  busy :
      (err : Option Err)
      → Work list root
      → Verdict list root (record { busy = true; complete = true; err = err })
  idle :
      (err : Option Err)
      → ((c : ChildSummary) → Below list root c → child_session_busy c ≡ false)
      → Verdict list root (record { busy = false; complete = true; err = err })
  unknown :
      (err : Option Err) → Verdict list root (record { busy = false; complete = false; err = err })

of_answer :
    (list : Lister) (root : Text) (b c : Bool) (err : Option Err)
    → (b ≡ true → Work list root)
    → (b ≡ false → c ≡ true → (s : ChildSummary) → Below list root s → child_session_busy s ≡ false)
    → (b ≡ true → c ≡ true)
    → Verdict list root (record { busy = b; complete = c; err = err })
of_answer list root true true err h k l = busy err (h refl)
of_answer list root true false err h k l = absurd (false≢true (l refl))
of_answer list root false true err h k l = idle err (k refl refl)
of_answer list root false false err h k l = unknown err

busy-complete : (w : Walk) → (subtree_busy w).busy ≡ true → (subtree_busy w).complete ≡ true
unfolding subtree_busy
busy-complete w =
    if_intro (λ (a : BusyAnswer). a.busy ≡ true → a.complete ≡ true) (any works w.settled)
      (λ _ _. refl) (λ _ h. absurd (false≢true h))

-- However the goroutines of the walk interleave, where the walk has ended SubtreeBusy answers one of
-- three things: busy and complete, and a session below the root, in the server's listings, has work
-- outstanding; not busy and complete, and none has, not even below a session that was met again on its
-- path; or not busy and not complete.
pub subtree_busy-Verdict :
    (list : Lister) (opts : TreeOptions) (root : Text) (w : Walk)
    → Comes list (with_defaults opts) (start_walk root) w
    → w.tasks ≡ []
    → Verdict list root (subtree_busy w)
subtree_busy-Verdict list opts root w h ended =
    of_answer list root (subtree_busy w).busy (subtree_busy w).complete (subtree_busy w).err
      (subtree_busy-Work list opts root w h)
      (λ b c. subtree_busy-complete list (with_defaults opts) root w h ended b c) (busy-complete w)
