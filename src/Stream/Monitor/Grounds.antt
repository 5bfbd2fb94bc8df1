-- ===== src/Stream/Monitor/Grounds.antt =====
-- stream.go: what the steps of the clock, of the read loop and of `check` keep of the grounds.
use omnigent_go_sdk.Prelude.{
  ℕ, ◌+◌, ◌-◌, ◌≤◌, ◌≡◌, sym, ◌∙◌, ◌⊎◌, inl, inr, Bool, false, List, ◌∷◌, ltb, All, if_intro, arith,
}
use omnigent_go_sdk.Stream.Monitor.{
  IdleMonitor, Check, at_rest, begun, running, cancelling, measured, rearming, see_paused, judge,
  Look, Loop, reading, in_caller, woken, returned, noting, waking, is_away,
}
use omnigent_go_sdk.Stream.Monitor.Silence.{
  before, WasSilent, Looked, Grounds, Pending, All-weaken, after, All-after, stored-Apart,
}

module _ (timeout start now d : ℕ) (l : Loop) (activity away : List (ℕ × ℕ)) (v : Look) where
  pub later_silent :
      WasSilent timeout start now v activity away
      → WasSilent timeout start (now + d) v activity (after (is_away l) now d away)
  later_silent w = record {
    in_order = w.in_order;
    then_loaded = w.then_loaded;
    past = omega (arith, w.past);
    whole = w.whole;
    silent = w.silent;
    reading =
        All-after _ (is_away l) now d away (inr (omega (arith, w.in_order, w.then_loaded, w.past)))
          w.reading;
  }

  later-Looked :
      (last until until' : ℕ)
      → until ≤ now
      → until ≤ until'
      → Looked last until v away
      → Looked last until' v (after (is_away l) now d away)
  later-Looked last until until' h k seen = record {
    in_order = omega (arith, seen.in_order, k);
    reading =
        All-after _ (is_away l) now d away (inr (omega (arith, seen.in_order, h))) seen.reading;
  }

  pub later-Grounds :
      (last : ℕ) (c : Check)
      → Grounds timeout start last now v activity away c
      → Grounds timeout start last (now + d) v activity (after (is_away l) now d away) c
  later-Grounds last running h = later-Looked last now (now + d) (omega arith) (omega arith) h
  later-Grounds last (measured e) h =
      (h.0, later-Looked last v.read v.read h.2 (omega arith) h.1, omega (arith, h.2))
  later-Grounds last cancelling h = later_silent h
  later-Grounds last at_rest h = tt
  later-Grounds last begun h = tt
  later-Grounds last (rearming _) h = tt

pub later-Pending :
    (last now d : ℕ) (paused : Bool) (away : List (ℕ × ℕ)) (l : Loop)
    → Pending last now paused away l
    → Pending last (now + d) paused (after (is_away l) now d away) l
later-Pending last now d paused away (noting t) h = (h.0, omega (arith, h.1))
later-Pending last now d paused away (waking t) h = (h.0, omega (arith, h.1), h.2)
later-Pending last now d paused away woken h = h
later-Pending last now d paused away in_caller h = h
later-Pending last now d paused away reading h = tt
later-Pending last now d paused away returned h = tt

-- While the monitor is not paused, the clock's steps add no time spent in the caller's code.
pub later_back :
    (last now d : ℕ) (paused : Bool) (away : List (ℕ × ℕ)) (l : Loop)
    → paused ≡ false
    → Pending last now paused away l
    → All (λ (span : ℕ × ℕ). span.1 ≤ last) away
    → All (λ (span : ℕ × ℕ). span.1 ≤ last) (after (is_away l) now d away)
later_back last now d paused away in_caller e p h = absurd (cc (sym p ∙ e))
later_back last now d paused away reading e p h = h
later_back last now d paused away woken e p h = h
later_back last now d paused away returned e p h = h
later_back last now d paused away (noting t) e p h = h
later_back last now d paused away (waking t) e p h = h

module _ (timeout start now : ℕ) (activity away : List (ℕ × ℕ)) (v : Look) where
  pub more_silent :
      (t : ℕ)
      → WasSilent timeout start now v activity away
      → WasSilent timeout start now v ((t, now) ∷ activity) away
  more_silent t w = record {
    in_order = w.in_order;
    then_loaded = w.then_loaded;
    past = w.past;
    whole = w.whole;
    silent = (stored-Apart timeout now t v w.past, w.silent);
    reading = w.reading;
  }

  more-Looked : (last t until : ℕ) → last ≤ t → Looked last until v away → Looked t until v away
  more-Looked last t until h seen = record {
    in_order = seen.in_order;
    reading = All-weaken (λ span. newer span) away seen.reading;
  }
    where
      newer :
          (span : ℕ × ℕ)
          → (span.1 ≤ last) ⊎ (v.looked ≤ span.0)
          → (span.1 ≤ t) ⊎ (v.looked ≤ span.0)
      newer span (inl k) = inl (omega (arith, h, k))
      newer span (inr k) = inr k

  pub more-Grounds :
      (last t : ℕ) (c : Check)
      → last ≤ t
      → Grounds timeout start last now v activity away c
      → Grounds timeout start t now v ((t, now) ∷ activity) away c
  more-Grounds last t running h g = more-Looked last t now h g
  more-Grounds last t (measured e) h g = (g.0, more-Looked last t v.read h g.1, g.2)
  more-Grounds last t cancelling h g = more_silent t g
  more-Grounds last t at_rest h g = tt
  more-Grounds last t begun h g = tt
  more-Grounds last t (rearming _) h g = tt

  pub see_paused-Grounds :
      (w : IdleMonitor)
      → (w.paused ≡ false → All (λ (span : ℕ × ℕ). span.1 ≤ w.last) away)
      → Grounds timeout start w.last now (record v { looked = now }) activity away (see_paused w)
  unfolding see_paused
  see_paused-Grounds w back =
      if_intro (Grounds timeout start w.last now (record v { looked = now }) activity away) w.paused
        (λ _. tt)
        (λ reads. record {
          in_order = omega arith;
          reading = All-weaken (λ span k. inl k) away (back reads);
        })

  pub judge-Grounds :
      (e : ℕ) (w : IdleMonitor)
      → w.timeout ≡ timeout
      → start ≤ w.last
      → v.read ≡ e
      → v.read ≤ now
      → Looked w.last v.read v away
      → All (λ (a : ℕ × ℕ). a.0 ≤ w.last) activity
      → Grounds timeout start w.last now (record v { loaded = now }) activity away (judge w e)
  unfolding judge
  judge-Grounds e w same_timeout since read_at past seen latest =
      if_intro (Grounds timeout start w.last now (record v { loaded = now }) activity away)
        (ltb 0 ((w.timeout + w.last) - e)) (λ _. tt)
        (λ late. record {
          in_order = seen.in_order;
          then_loaded = past;
          past = omega arith;
          whole = ground (arith, since, late, same_timeout, read_at);
          silent =
              All-weaken (λ a h. before (ground (arith, h, late, same_timeout, read_at))) activity
                latest;
          reading = All-weaken (λ span. long_ago late span) away seen.reading;
        })
    where
      long_ago :
          ltb 0 ((w.timeout + w.last) - e) ≡ false
          → (span : ℕ × ℕ) → (span.1 ≤ w.last) ⊎ (v.looked ≤ span.0)
          → (span.1 + timeout ≤ v.read) ⊎ (v.looked ≤ span.0)
      long_ago late span (inl k) = inl (ground (arith, k, late, same_timeout, read_at))
      long_ago late span (inr k) = inr k
