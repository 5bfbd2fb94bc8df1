-- ===== src/Session/Directory/Named.antt =====
-- session.go: what ResolveAgent answers.
use omnigent_go_sdk.Prelude.{
  ℕ, ◌+◌, ◌≤◌, ◌≡◌, refl, sym, ◌∙◌, ◌⊎◌, inl, inr, Bool, false, ◌&&◌, List, [], ◌∷◌, ◌++◌, is_empty,
  ltb, leb, length, length-append, arith, if_intro, true≢false,
}
use omnigent_go_sdk.Prelude.Text.{Text, same, same_iff, byte_length}
use omnigent_go_sdk.Errors.{Err, no_such_agent, sanitize_for_error, max_agent_name_runes}
use omnigent_go_sdk.Session.Directory.{AgentObject, Seen, note_name, agent_loop, resolve_agent}

-- The bytes of the names together.
abbrev pub total_size : List Text → ℕ
total_size [] = 0
total_size (name ∷ names) = byte_length name + total_size names

total_size-append : (xs ys : List Text) → total_size (xs ++ ys) ≡ total_size xs + total_size ys
total_size-append [] ys = omega arith
total_size-append (x ∷ xs) ys = omega (arith, total_size-append xs ys)

abbrev sanitized : List AgentObject → List Text
sanitized [] = []
sanitized (agent ∷ agents) = sanitize_for_error agent.name max_agent_name_runes ∷ sanitized agents

-- What ListAgents hands over where it fails nowhere.
abbrev pub handed_over : List AgentObject → List (Err ⊎ AgentObject)
handed_over [] = []
handed_over (agent ∷ agents) = inr agent ∷ handed_over agents

-- The names that an error lists are few and short.
record Small (seen : Seen) : Type 0 where
  few : length seen.names ≤ 20
  short : seen.size ≤ 400
  measured : total_size seen.names ≡ seen.size

note_name-Small : (seen : Seen) (name : Text) → Small seen → Small (note_name seen name)
unfolding note_name
note_name-Small seen name h =
    if_intro Small (ltb (length seen.names) 20 && leb (seen.size + byte_length name) 400)
      (λ fits. record {
        few = ground (arith, fits, length-append seen.names (name ∷ []));
        short = ground (arith, fits);
        measured = omega (arith, h.measured, total_size-append seen.names (name ∷ []));
      })
      (λ _. record { few = h.few; short = h.short; measured = h.measured })

-- What a search answers: the first agent of the name, or names that are few and short.
pub data Answer (agent_name : Text) : List AgentObject → Err ⊎ AgentObject → Type 0 where
  found :
      (agent : AgentObject) (agents : List AgentObject)
      → agent.name ≡ agent_name
      → Answer agent_name (agent ∷ agents) (inr agent)
  later :
      (agent : AgentObject) (agents : List AgentObject) (r : Err ⊎ AgentObject)
      → same agent.name agent_name ≡ false
      → Answer agent_name agents r
      → Answer agent_name (agent ∷ agents) r
  not_found :
      (names : List Text) (truncated : Bool)
      → length names ≤ 20
      → total_size names ≤ 400
      → Answer agent_name [] (inl (no_such_agent agent_name names truncated))

agent_loop-Answer :
    (agent_name : Text) (seen : Seen) (agents : List AgentObject)
    → Small seen
    → Answer agent_name agents (agent_loop agent_name seen (handed_over agents))
unfolding agent_loop
agent_loop-Answer agent_name seen [] h =
    not_found seen.names seen.truncated h.few (omega (arith, h.measured, h.short))
agent_loop-Answer agent_name seen (agent ∷ agents) h =
    if_intro (Answer agent_name (agent ∷ agents)) (same agent.name agent_name)
      (λ e. found agent agents ((same_iff agent.name agent_name).0 e))
      (λ e. later agent agents _ e (
        agent_loop-Answer agent_name
          (note_name seen (sanitize_for_error agent.name max_agent_name_runes)) agents
          (note_name-Small seen (sanitize_for_error agent.name max_agent_name_runes) h)))

-- Where the name is not empty and the listing does not fail: ResolveAgent answers with the first
-- agent of that name, or, where there is none, with an error that lists at most 20 names, of at most
-- 400 bytes together.
pub resolve_agent-Answer :
    (agent_name : Text) (agents : List AgentObject)
    → is_empty agent_name ≡ false
    → Answer agent_name agents (resolve_agent agent_name (handed_over agents))
unfolding resolve_agent
resolve_agent-Answer agent_name agents named =
    if_intro (Answer agent_name agents) (is_empty agent_name)
      (λ e. absurd (true≢false (sym e ∙ named)))
      (λ _.
        agent_loop-Answer agent_name (record { names = []; size = 0; truncated = false }) agents
          (record { few = omega arith; short = omega arith; measured = refl }))
