-- ===== src/Session/Sound.antt =====
-- session.go, files.go and client.go: the paths of the requests that are sent.
use omnigent_go_sdk.Prelude.{
  ◌≡◌, refl, ◌⊎◌, inl, inr, false, ◌||◌, List, [], ◌∷◌, All, if_intro, is_empty, any, arith,
}
use omnigent_go_sdk.Prelude.Text.{Text, codes}
use omnigent_go_sdk.Errors.{Err}
use omnigent_go_sdk.Session.{
  Request, is_dot_segment, Guard, update, post_event, file_segments, create_plan, get_session_plan,
  delete_session_plan, fork_session_plan, list_items_plan, children_plan, list_sessions_plan,
  list_agents_plan, list_runners_plan, update_session_plan, bind_runner_plan,
  set_model_override_plan, clear_model_override_plan, set_reasoning_effort_plan,
  clear_reasoning_effort_plan, set_archived_plan, set_external_id_plan, post_input_plan,
  send_message_plan, interrupt_plan, compact_plan, resolve_elicitation_plan, list_files_plan,
  get_file_plan, delete_file_plan, upload_file_plan, download_file_plan,
}
use omnigent_go_sdk.Session.Calls.{
  send, check, plan_of, Operation, create, get_session, delete_session, fork_session, list_items,
  children, list_sessions, list_agents, list_runners, update_session, bind_runner,
  set_model_override, set_reasoning_effort, set_external_id, clear_model_override,
  clear_reasoning_effort, set_archived, post_input, send_message, interrupt, compact,
  resolve_elicitation, list_files, get_file, delete_file, upload_file, download_file, request_of,
}

abbrev pub Full : List Text → Type 0
Full = All (λ s. is_empty s ≡ false)

-- Refused, or sent with segments that name something and do not climb.
pub data SoundPath : Err ⊎ Request → Type 0 where
  refused : (err : Err) → SoundPath (inl err)
  sends :
      (r : Request) → Full r.segments → any is_dot_segment r.segments ≡ false → SoundPath (inr r)

abbrev pub Passed : List Guard → Type 0
Passed = All (λ g. g.0 ≡ false)

send-SoundPath : (r : Request) → Full r.segments → SoundPath (send r)
unfolding send
send-SoundPath r full =
    if_intro SoundPath (any is_dot_segment r.segments) (λ _. refused _) (λ ok. sends r full ok)

check-SoundPath :
    (guards : List Guard) (r : Err ⊎ Request)
    → (Passed guards → SoundPath r)
    → SoundPath (check guards r)
unfolding check
check-SoundPath [] r h = h tt
check-SoundPath ((missing, what) ∷ guards) r h =
    if_intro SoundPath missing (λ _. refused _)
      (λ e. check-SoundPath guards r (λ passed. h (e, passed)))

neither :
    (s f : Text) → (is_empty s || is_empty f) ≡ false → (is_empty s ≡ false) × (is_empty f ≡ false)
neither s f h = (ground (arith, h), ground (arith, h))

plan_of-Full : (o : Operation) → Passed (plan_of o).guards → Full (plan_of o).request.segments
unfolding plan_of update post_event file_segments codes create_plan get_session_plan
    delete_session_plan fork_session_plan list_items_plan children_plan list_sessions_plan
    list_agents_plan list_runners_plan update_session_plan bind_runner_plan set_model_override_plan
    clear_model_override_plan set_reasoning_effort_plan clear_reasoning_effort_plan
    set_archived_plan set_external_id_plan post_input_plan send_message_plan interrupt_plan
    compact_plan resolve_elicitation_plan list_files_plan get_file_plan delete_file_plan
    upload_file_plan download_file_plan
plan_of-Full (create agent_id) h = (refl, (refl, tt))
plan_of-Full (get_session s) h = (refl, (refl, (h.0, tt)))
plan_of-Full (delete_session s) h = (refl, (refl, (h.0, tt)))
plan_of-Full (fork_session s) h = (refl, (refl, (h.0, (refl, tt))))
plan_of-Full (list_items s) h = (refl, (refl, (h.0, (refl, tt))))
plan_of-Full (children s) h = (refl, (refl, (h.0, (refl, tt))))
plan_of-Full list_sessions h = (refl, (refl, tt))
plan_of-Full list_agents h = (refl, (refl, tt))
plan_of-Full list_runners h = (refl, (refl, tt))
plan_of-Full (update_session s req) h = (refl, (refl, (h.0, tt)))
plan_of-Full (bind_runner s runner) h = (refl, (refl, (h.1.0, tt)))
plan_of-Full (set_model_override s model) h = (refl, (refl, (h.1.0, tt)))
plan_of-Full (clear_model_override s) h = (refl, (refl, (h.0, tt)))
plan_of-Full (set_reasoning_effort s effort) h = (refl, (refl, (h.1.0, tt)))
plan_of-Full (clear_reasoning_effort s) h = (refl, (refl, (h.0, tt)))
plan_of-Full (set_archived s archived) h = (refl, (refl, (h.0, tt)))
plan_of-Full (set_external_id s id) h = (refl, (refl, (h.0, tt)))
plan_of-Full (post_input s type_of text) h = (refl, (refl, (h.0, (refl, tt))))
plan_of-Full (send_message s text) h = (refl, (refl, (h.0, (refl, tt))))
plan_of-Full (interrupt s) h = (refl, (refl, (h.0, (refl, tt))))
plan_of-Full (compact s) h = (refl, (refl, (h.0, (refl, tt))))
plan_of-Full (resolve_elicitation s e action) h =
    let (hs, he) = neither s e h.0 in (refl, (refl, (hs, (refl, (he, (refl, tt))))))
plan_of-Full (list_files s) h = (refl, (refl, (h.0, (refl, (refl, tt)))))
plan_of-Full (get_file s f) h =
    let (hs, hf) = neither s f h.0 in (refl, (refl, (hs, (refl, (refl, (hf, tt))))))
plan_of-Full (delete_file s f) h =
    let (hs, hf) = neither s f h.0 in (refl, (refl, (hs, (refl, (refl, (hf, tt))))))
plan_of-Full (upload_file s filename nil_content) h = (refl, (refl, (h.0, (refl, (refl, tt)))))
plan_of-Full (download_file s f max_bytes) h =
    let (hs, hf) = neither s f h.0 in (refl, (refl, (hs, (refl, (refl, (hf, (refl, tt)))))))

-- Whatever the arguments of an operation of a session or of its files, it is refused before a request
-- is built, or its request has a path of segments none of which is empty, "." or "..".
pub request_of-SoundPath : (o : Operation) → SoundPath (request_of o)
unfolding request_of
request_of-SoundPath o =
    check-SoundPath (plan_of o).guards (send (plan_of o).request)
      (λ passed. send-SoundPath (plan_of o).request (plan_of-Full o passed))
