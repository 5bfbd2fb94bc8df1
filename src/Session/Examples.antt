-- ===== src/Session/Examples.antt =====
-- Two agents, two runners, and a download of a file with a name that climbs.
use omnigent_go_sdk.Prelude.{◌≡◌, refl, inr, true, List, [], ◌∷◌, none, some}
use omnigent_go_sdk.Prelude.Int.{pos}
use omnigent_go_sdk.Session.Calls.{Operation, download_file, request_of}
use omnigent_go_sdk.Session.Sound.{SoundPath, request_of-SoundPath}
use omnigent_go_sdk.Session.Directory.{
  AgentObject, RunnerInfo, ResolveOnlineRunnerOptions, wanted_of, resolve_agent,
  resolve_online_runner,
}
use omnigent_go_sdk.Session.Directory.Named.{Answer, handed_over, resolve_agent-Answer}
use omnigent_go_sdk.Session.Directory.Runners.{
  suits, silent, first_id, resolve_online_runner-first_id,
}

-- The file id is two dots.
abbrev climbing : Operation
climbing = download_file (115 ∷ []) (46 ∷ 46 ∷ []) (pos 10)

request_of-SoundPath_example : SoundPath (request_of climbing)
request_of-SoundPath_example = request_of-SoundPath climbing

abbrev two_agents : List AgentObject
two_agents = record { id = 49 ∷ []; name = 97 ∷ [] } ∷ record { id = 50 ∷ []; name = 98 ∷ [] } ∷ []

resolve_agent-Answer_example :
    Answer (98 ∷ []) two_agents (resolve_agent (98 ∷ []) (handed_over two_agents))
resolve_agent-Answer_example = resolve_agent-Answer (98 ∷ []) two_agents refl

-- One runner that reports no harnesses, and one that serves the harness h.
abbrev two_runners : List RunnerInfo
two_runners =
    record { runner_id = 49 ∷ []; online = true; harnesses = none }
    ∷ record { runner_id = 50 ∷ []; online = true; harnesses = some ((104 ∷ []) ∷ []) }
    ∷ []

abbrev for_h : ResolveOnlineRunnerOptions
for_h = record { harness = 104 ∷ []; canonicalize = none }

resolve_online_runner-first_id_example :
    resolve_online_runner for_h (inr two_runners)
    ≡ inr (first_id (suits (wanted_of for_h) none) two_runners (first_id silent two_runners []))
resolve_online_runner-first_id_example = resolve_online_runner-first_id for_h two_runners
