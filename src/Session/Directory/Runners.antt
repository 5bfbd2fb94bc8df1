-- ===== src/Session/Directory/Runners.antt =====
-- session.go: what ResolveOnlineRunner answers.
use omnigent_go_sdk.Prelude.{
  ◌≡◌, refl, ap, inr, Bool, true, false, not, ◌||◌, ◌&&◌, List, [], ◌∷◌, Option, none, some,
  if◌then◌else◌, is_empty,
}
use omnigent_go_sdk.Prelude.Maps.{TextSet}
use omnigent_go_sdk.Prelude.Text.{Text}
use omnigent_go_sdk.Session.Directory.{
  RunnerInfo, ResolveOnlineRunnerOptions, wanted_of, advertises, runner_loop, resolve_online_runner,
}

abbrev usable : RunnerInfo → Bool
usable runner = runner.online && not (is_empty runner.runner_id)

-- A runner that says that it serves the harness, and one that says nothing of harnesses.
abbrev pub suits : TextSet → Option (Text → Text) → RunnerInfo → Bool
suits wanted canonicalize runner = usable runner && (elim runner.harnesses [
  | none ↦ false
  | some harnesses ↦ is_empty wanted || advertises wanted canonicalize harnesses
])

abbrev pub silent : RunnerInfo → Bool
silent runner = usable runner && (elim runner.harnesses [ none ↦ true | some _ ↦ false ])

-- The id of the first runner with a property, or else another id.
abbrev pub first_id : (RunnerInfo → Bool) → List RunnerInfo → (otherwise : Text) → Text
first_id p [] otherwise = otherwise
first_id p (runner ∷ runners) otherwise =
    if p runner then runner.runner_id else first_id p runners otherwise

module _ (wanted : TextSet) (canonicalize : Option (Text → Text)) where
  abbrev fallback : (unknown : Text) → List RunnerInfo → Text
  fallback unknown runners = if is_empty unknown then first_id silent runners [] else unknown

  abbrev Agrees : (unknown : Text) → List RunnerInfo → Type 0
  Agrees unknown runners =
      runner_loop wanted canonicalize unknown runners
      ≡ first_id (suits wanted canonicalize) runners (fallback unknown runners)

  one_runner :
      (runner_id : Text) (online : Bool) (harnesses : Option (List Text))
      (runners : List RunnerInfo) (unknown : Text)
      → ((u : Text) → Agrees u runners)
      → Agrees unknown
          (record { runner_id = runner_id; online = online; harnesses = harnesses } ∷ runners)
  unfolding runner_loop
  one_runner id false harnesses runners unknown ih = ih unknown
  one_runner [] true harnesses runners unknown ih = ih unknown
  one_runner (c ∷ id) true none runners [] ih = ih (c ∷ id)
  one_runner (c ∷ id) true none runners (d ∷ unknown) ih = ih (d ∷ unknown)
  one_runner (c ∷ id) true (some hs) runners unknown ih =
      ap (λ (z : Text). if is_empty wanted || advertises wanted canonicalize hs then c ∷ id else z)
        (ih unknown)

  all_runners : (unknown : Text) (runners : List RunnerInfo) → Agrees unknown runners
  unfolding runner_loop
  all_runners [] [] = refl
  all_runners (d ∷ unknown) [] = refl
  all_runners unknown (runner ∷ runners) =
      one_runner runner.runner_id runner.online runner.harnesses runners unknown
        (λ u. all_runners u runners)

-- Where the listing succeeds, ResolveOnlineRunner answers with the first runner that is online, has
-- an id and serves the harness (or reports any harnesses, where none is asked for), or else with the
-- first that is online, has an id and reports none, or else with "".
pub resolve_online_runner-first_id :
    (opts : ResolveOnlineRunnerOptions) (runners : List RunnerInfo)
    → resolve_online_runner opts (inr runners)
      ≡ inr
          (first_id (suits (wanted_of opts) opts.canonicalize) runners (first_id silent runners []))
unfolding resolve_online_runner
resolve_online_runner-first_id opts runners =
    ap inr (all_runners (wanted_of opts) opts.canonicalize [] runners)
