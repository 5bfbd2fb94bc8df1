-- ===== src/Session/Directory.antt =====
-- session.go: the agent of a name, and the runner for a harness.
pub mod Named
pub mod Runners
use omnigent_go_sdk.Prelude.{
  ℕ, ◌+◌, ◌⊎◌, inl, inr, Bool, true, false, not, ◌||◌, ◌&&◌, List, [], ◌∷◌, ◌++◌, Option, none,
  some, if◌then◌else◌, is_empty, any, ltb, leb, length,
}
use omnigent_go_sdk.Prelude.Maps.{TextSet, member, add}
use omnigent_go_sdk.Prelude.Text.{Text, codes, same, byte_length}
use omnigent_go_sdk.Errors.{
  Err, invalid_argument, no_such_agent, sanitize_for_error, max_agent_name_runes,
}

pub record AgentObject : Type 0 where
  pub id : Text
  pub name : Text

abbrev pub max_names_in_error : ℕ
max_names_in_error = 20

abbrev pub max_names_runes : ℕ
max_names_runes = 400

-- The names that are listed in the error so far: `seen`, `seenRunes` and `truncated`.
pub record Seen : Type 0 where
  pub names : List Text
  pub size : ℕ
  pub truncated : Bool

unfoldable pub note_name : Seen → (name : Text) → Seen
note_name seen name =
    if ltb (length seen.names) max_names_in_error
      && leb (seen.size + byte_length name) max_names_runes
    then record {
      names = seen.names ++ name ∷ [];
      size = seen.size + byte_length name;
      truncated = seen.truncated;
    }
    else record seen { truncated = true }

-- The loop over what ListAgents hands over.
unfoldable pub agent_loop :
    (agent_name : Text) → Seen → List (Err ⊎ AgentObject) → Err ⊎ AgentObject
unfolding note_name
agent_loop agent_name seen [] = inl (no_such_agent agent_name seen.names seen.truncated)
agent_loop agent_name seen (inl err ∷ steps) = inl err
agent_loop agent_name seen (inr agent ∷ steps) =
    let rest =
      agent_loop agent_name (note_name seen (sanitize_for_error agent.name max_agent_name_runes))
        steps in
    if same agent.name agent_name then inr agent else rest

unfoldable pub resolve_agent : (agent_name : Text) → List (Err ⊎ AgentObject) → Err ⊎ AgentObject
unfolding agent_loop
resolve_agent agent_name steps =
    if is_empty agent_name
    then inl (invalid_argument (codes "agentName is required"))
    else agent_loop agent_name (record { names = []; size = 0; truncated = false }) steps

-- `harnesses` is none where the runner reported none.
pub record RunnerInfo : Type 0 where
  pub runner_id : Text
  pub online : Bool
  pub harnesses : Option (List Text)

pub record ResolveOnlineRunnerOptions : Type 0 where
  pub harness : Text
  pub canonicalize : Option (Text → Text)

unfoldable pub canonical_wanted : Text → Option (Text → Text) → TextSet
canonical_wanted harness none = add harness []
canonical_wanted harness (some canonicalize) = add (canonicalize harness) (add harness [])

unfoldable pub wanted_of : ResolveOnlineRunnerOptions → TextSet
unfolding canonical_wanted
wanted_of opts =
    if is_empty opts.harness then [] else canonical_wanted opts.harness opts.canonicalize

unfoldable pub canonical_match : TextSet → Option (Text → Text) → Text → Bool
canonical_match wanted none advertised = false
canonical_match wanted (some canonicalize) advertised = member (canonicalize advertised) wanted

unfoldable pub advertises : TextSet → Option (Text → Text) → List Text → Bool
unfolding canonical_match
advertises wanted canonicalize [] = false
advertises wanted canonicalize (advertised ∷ harnesses) =
    member advertised wanted
    || canonical_match wanted canonicalize advertised
    || advertises wanted canonicalize harnesses

-- The loop over the listing, `unknown` being the fallback so far.
unfoldable pub runner_loop :
    TextSet → Option (Text → Text) → (unknown : Text) → List RunnerInfo → Text
unfolding advertises
runner_loop wanted canonicalize unknown [] = unknown
runner_loop wanted canonicalize unknown (runner ∷ runners) =
    let rest = runner_loop wanted canonicalize unknown runners in
    let fallen_back =
      runner_loop wanted canonicalize (if is_empty unknown then runner.runner_id else unknown)
        runners in
    if not runner.online || is_empty runner.runner_id then rest else elim runner.harnesses [
      | none ↦ fallen_back
      | some harnesses ↦
          if is_empty wanted || advertises wanted canonicalize harnesses
          then runner.runner_id
          else rest
    ]

unfoldable pub resolve_online_runner :
    ResolveOnlineRunnerOptions → Err ⊎ List RunnerInfo → Err ⊎ Text
unfolding wanted_of runner_loop
resolve_online_runner opts (inl err) = inl err
resolve_online_runner opts (inr runners) =
    inr (runner_loop (wanted_of opts) opts.canonicalize [] runners)
