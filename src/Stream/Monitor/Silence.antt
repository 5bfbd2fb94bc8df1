-- ===== src/Stream/Monitor/Silence.antt =====
-- stream.go: what the monitor cancels on, and what the states that it comes to keep.
use omnigent_go_sdk.Prelude.{
  ℕ, ◌+◌, ◌≤◌, ◌≡◌, ◌⊎◌, inl, inr, Bool, true, false, List, [], ◌∷◌, All, arith, leb, Bool-cases,
  if◌then◌else◌,
}
use omnigent_go_sdk.Stream.Monitor.{
  Check, running, cancelling, measured, Watch, Look, Loop, in_caller, woken, noting, waking,
}

-- An activity, by the times of its reading of the clock and of its store, is no part of the silence
-- that a run of `check` concludes: it was a whole timeout before the run read the clock, or not before
-- the run loaded the last activity, or on its way from the clock to the store at that load.
pub data Apart (timeout : ℕ) (v : Look) (a : ℕ × ℕ) : Type 0 where
  before : a.0 + timeout ≤ v.read → Apart timeout v a
  later : v.loaded ≤ a.0 → Apart timeout v a
  on_its_way : a.0 ≤ v.loaded → v.loaded ≤ a.1 → Apart timeout v a

-- There was a silence as long as the timeout, since the monitor began and up to the run's reading of
-- the clock: no activity is a part of it, and no time of it that was before the run's look was spent
-- in the caller's code.
pub record WasSilent (timeout start now : ℕ) (v : Look) (activity away : List (ℕ × ℕ))
    : Type 0 where
  pub in_order : v.looked ≤ v.read
  pub then_loaded : v.read ≤ v.loaded
  pub past : v.loaded ≤ now
  pub whole : start + timeout ≤ v.read
  pub silent : All (Apart timeout v) activity
  pub reading : All (λ (span : ℕ × ℕ). (span.1 + timeout ≤ v.read) ⊎ (v.looked ≤ span.0)) away

-- The run looked not after `until`, and the loop was reading.
pub record Looked (last until : ℕ) (v : Look) (away : List (ℕ × ℕ)) : Type 0 where
  pub in_order : v.looked ≤ until
  pub reading : All (λ (span : ℕ × ℕ). (span.1 ≤ last) ⊎ (v.looked ≤ span.0)) away

-- What a run of `check` is based on.
abbrev pub Grounds :
    (timeout start last now : ℕ) → Look → (activity away : List (ℕ × ℕ)) → Check → Type 0
Grounds timeout start last now v activity away running = Looked last now v away
Grounds timeout start last now v activity away (measured e) =
    (v.read ≡ e) × Looked last v.read v away × (v.read ≤ now)
Grounds timeout start last now v activity away cancelling =
    WasSilent timeout start now v activity away
Grounds timeout start last now v activity away c = Unit

-- What the read loop is about to store: not before the last store, and for `resume` not before the
-- time spent in the caller's code.
abbrev pub Pending : (last now : ℕ) (paused : Bool) → List (ℕ × ℕ) → Loop → Type 0
Pending last now paused away in_caller = paused ≡ true
Pending last now paused away (noting t) = (last ≤ t) × (t ≤ now)
Pending last now paused away (waking t) =
    (last ≤ t) × (t ≤ now) × All (λ (span : ℕ × ℕ). span.1 ≤ t) away
Pending last now paused away woken = All (λ (span : ℕ × ℕ). span.1 ≤ last) away
Pending last now paused away l = Unit

pub record Just (timeout start : ℕ) (s : Watch) : Type 0 where
  pub same_timeout : s.monitor.timeout ≡ timeout
  pub since : start ≤ s.monitor.last
  pub past : s.monitor.last ≤ s.now
  pub latest : All (λ (a : ℕ × ℕ). a.0 ≤ s.monitor.last) s.activity
  pub spent_away : All (λ (span : ℕ × ℕ). span.1 ≤ s.now) s.away
  pub back : s.monitor.paused ≡ false → All (λ (span : ℕ × ℕ). span.1 ≤ s.monitor.last) s.away
  pub pending : Pending s.monitor.last s.now s.monitor.paused s.away s.loop
  pub grounds : Grounds timeout start s.monitor.last s.now s.look s.activity s.away s.check
  pub reason : s.monitor.fired ≡ true → WasSilent timeout start s.now s.verdict s.activity s.away

pub All-weaken {ℓ} :
    {A : Type ℓ} {P Q : A → Type 0} → ((a : A) → P a → Q a) → (xs : List A) → All P xs → All Q xs
All-weaken f [] h = tt
All-weaken f (x ∷ xs) h = (f x h.0, All-weaken f xs h.1)

-- The spans after the clock has moved.
abbrev pub after : Bool → (now d : ℕ) → List (ℕ × ℕ) → List (ℕ × ℕ)
after called now d away = if called then (now, now + d) ∷ away else away

pub All-after :
    (P : ℕ × ℕ → Type 0) (called : Bool) (now d : ℕ) (away : List (ℕ × ℕ))
    → P (now, now + d)
    → All P away
    → All P (after called now d away)
All-after P true now d away h hs = (h, hs)
All-after P false now d away h hs = hs

-- An activity that is stored after the load.
pub stored-Apart : (timeout now t : ℕ) (v : Look) → v.loaded ≤ now → Apart timeout v (t, now)
stored-Apart timeout now t v past = elim (Bool-cases (leb t v.loaded)) [
  | inl h ↦ on_its_way (ground (arith, h)) past
  | inr h ↦ later (ground (arith, h))
]
