-- ===== src/Stream/Promises.antt =====
-- stream.go: what a caller of `Stream` may rely on.
use omnigent_go_sdk.Prelude.{
  ◌≤◌, ◌≡◌, refl, sym, subst, Bool, not, ◌&&◌, List, [], Option, is_empty, if_intro, ltb, ◌==◌,
  arith,
}
use omnigent_go_sdk.Prelude.Text.{Text, codes, byte_length}
use omnigent_go_sdk.Errors.{Err, api_error, invalid_argument, stream_protocol}
use omnigent_go_sdk.Wire.{Event}
use omnigent_go_sdk.Sequence.{Step, Consumer, Offered, nothing}
use omnigent_go_sdk.Stream.{
  max_frame_bytes, StreamOptions, HookCall, Reader, Progress, reading, saw_done, over, read_lines,
  Ending, finish, why_cut_off, Connection, unreachable, responds, open_reader, read_body, stream,
}
use omnigent_go_sdk.Stream.Kept.{
  sound, Subscribed, unseen, live, SubscribedFirst, no_frame, first, Reading, Returned, Fine,
  refused,
}
use omnigent_go_sdk.Stream.Lines.{read_lines-Fine}

at_rest :
    (hook : Option (Option Err)) (b : Bool) (calls : List HookCall) (out : List (Step Event))
    → Subscribed hook b calls out
    → SubscribedFirst hook calls out
at_rest hook _ _ _ unseen = no_frame [] tt
at_rest hook _ _ _ (live calls out a) = first calls out a

module _ (opts : StreamOptions) (caller : Consumer Event) where
  pub opened : Reading opts caller (open_reader caller)
  unfolding open_reader byte_length
  opened = record {
    same_caller = refl;
    going = refl;
    events = tt;
    offered = nothing;
    bounded = omega arith;
    hooks = unseen;
  }

  -- A reader that returns without an error of its own.
  quietly : (r : Reader) → Reading opts caller r → Returned opts caller r
  quietly r h = record {
    fails_last = sound r.out h.events;
    all_offered = subst (Offered caller r.out) (sym h.going) h.offered;
    subscribed_first = at_rest opts.on_subscribed r.subscribed r.calls r.out h.hooks;
  }

  finish-Returned :
      (ending : Ending) (p : Progress) → Fine opts caller p → Returned opts caller (finish ending p)
  unfolding finish
  finish-Returned ending (over r) h = h.0
  finish-Returned ending (saw_done r) h =
      if_intro (Returned opts caller) (ltb 0 r.skipped && not r.delivered)
        (λ _. (refused opts caller r stream_protocol h).0) (λ _. quietly r h)
  finish-Returned ending (reading r) h =
      (refused opts caller r (why_cut_off ending ending.cancelled) h).0

  read_body-Returned :
      (connection : Connection)
      → Returned opts caller (read_body opts (open_reader caller) connection)
  unfolding read_body
  read_body-Returned (unreachable err) = (refused opts caller (open_reader caller) err opened).0
  read_body-Returned (responds status err lines ending) =
      if_intro (Returned opts caller) (status == 200)
        (λ _.
          finish-Returned ending (read_lines opts (open_reader caller) lines)
            (read_lines-Fine opts caller (open_reader caller) lines opened))
        (λ _. (refused opts caller (open_reader caller) (api_error err) opened).0)

  -- Whatever the connection, the options and the caller: the steps that `Stream` hands over are events
  -- but for the last, which may be an error, and a caller that stops is handed nothing more. Either
  -- no hook was called and no event handed over, or OnSubscribed, where it is set, was called first
  -- and before any step, and every other call of a hook is one of OnSkippedFrame, with a payload of at
  -- most 8 MiB.
  pub stream-Returned :
      (connection : Connection) → Returned opts caller (stream opts caller connection)
  unfolding stream
  stream-Returned connection =
      if_intro (Returned opts caller) (is_empty opts.session_id)
        (λ _.
          (refused opts caller (open_reader caller)
            (invalid_argument (codes "sessionID is required")) opened).0)
        (λ _. read_body-Returned connection)

-- Whatever lines the server has sent, where the loop reads on the text of the frame that is being
-- read is at most 8 MiB.
pub payload-Bounded :
    (opts : StreamOptions) (caller : Consumer Event) (lines : List Text) (r : Reader)
    → read_lines opts (open_reader caller) lines ≡ reading r
    → byte_length r.payload ≤ max_frame_bytes
payload-Bounded opts caller lines r e =
    (subst (Fine opts caller) e
      (read_lines-Fine opts caller (open_reader caller) lines (opened opts caller))).bounded
