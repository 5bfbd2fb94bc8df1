-- ===== src/Stream/RoundTrip.antt =====
-- stream.go: a printed stream is read.
use omnigent_go_sdk.Prelude.{
  ◌≡◌, refl, sym, ap, ◌∙◌, Bool, true, false, List, [], ◌∷◌, ◌++◌, Option, none, some, is_empty,
  if_intro, true≢false, All, arith, append_assoc, append-nil,
}
use omnigent_go_sdk.Prelude.Text.{
  Text, same, byte_length, rune_len, codes, trim_space, trim_left, is_space, trim_right_of,
}
use omnigent_go_sdk.Errors.{Err, ApiError}
use omnigent_go_sdk.Wire.{Event}
use omnigent_go_sdk.Sequence.{Step, value}
use omnigent_go_sdk.Stream.{
  Frame, sentinel, carries, decode_frame, StreamOptions, HookCall, subscribed_call, Reader,
  Progress, reading, saw_done, hand, answered, call_subscribed, subscribe, deliver, take_frame,
  then_take, end_frame, read_line, and_then, read_lines, Ending, finish, responds, open_reader,
  read_body, stream,
}
use omnigent_go_sdk.Stream.Printed.{
  Sent, join, data_lines, print_frame, print_stream, Readable, event_line, read_lines-append,
  patient, at, all_lines,
}

-- OnSubscribed is not set, or answers without an error.
pub data Willing : Option (Option Err) → Type 0 where
  unset : Willing none
  agrees : Willing (some none)

-- The events of a stream, as they are handed over.
abbrev pub events_of : List Sent → List (Step Event)
events_of [] = []
events_of (f ∷ fs) = value (some f.event) ∷ events_of fs

module _ (opts : StreamOptions) where
  announced_to :
      (out : List (Step Event)) (calls : List HookCall) (d : Bool) (hook : Option (Option Err))
      → Willing hook
      → (calls' : List HookCall) × (call_subscribed (at out true calls d [] []) hook
          ≡ reading (at out true calls' d [] []))
  unfolding call_subscribed answered
  announced_to out calls d _ unset = (calls, refl)
  announced_to out calls d _ agrees = (calls ++ subscribed_call out ∷ [], refl)

  subscribed_to :
      (out : List (Step Event)) (b : Bool) (calls : List HookCall) (d : Bool)
      → Willing opts.on_subscribed
      → (calls' : List HookCall) × (subscribe opts (at out b calls d [] [])
          ≡ reading (at out true calls' d [] []))
  unfolding subscribe
  subscribed_to out true calls d h = (calls, refl)
  subscribed_to out false calls d h = announced_to out calls d opts.on_subscribed h

  -- The blank line behind a frame whose payload decodes to `frame`.
  ended :
      (out : List (Step Event)) (b : Bool) (calls : List HookCall) (d : Bool) (name payload : Text)
      (frame : Frame)
      → Willing opts.on_subscribed
      → decode_frame opts.json name payload ≡ frame
      → (calls' : List HookCall) × (read_line opts (at out b calls d name payload) []
          ≡ take_frame opts name payload (at out true calls' d [] []) frame)
  unfolding read_line end_frame
  ended out b calls d name payload frame h e =
      let (calls', e') = subscribed_to out b calls d h in
      (
        calls',
        ap
              (λ (fr : Frame).
                then_take opts name payload fr (subscribe opts (at out b calls d [] [])))
              e
            ∙ ap (then_take opts name payload frame) e',
      )

  read_frame :
      (out : List (Step Event)) (b : Bool) (calls : List HookCall) (d : Bool) (f : Sent)
      → Willing opts.on_subscribed
      → Readable opts.json f
      → (calls' : List HookCall) × (read_lines opts (at out b calls d [] []) (print_frame f)
          ≡ reading (at (out ++ value (some f.event) ∷ []) true calls' true [] []))
  unfolding read_lines take_frame deliver hand
  read_frame out b calls d f h ok =
      let name = trim_space f.name in
      let payload = join f.line f.lines in
      let (calls', e) = ended out b calls d name payload (carries f.event) h ok.decodes in
      (
        calls',
        ap (and_then (λ r. read_lines opts r (data_lines (f.line ∷ f.lines) ++ [] ∷ [])))
              (event_line opts (at out b calls d [] []) f.name)
            ∙ read_lines-append opts (at out b calls d name []) (data_lines (f.line ∷ f.lines))
                ([] ∷ [])
            ∙ ap (and_then (λ r. read_lines opts r ([] ∷ [])))
                (all_lines opts out b calls d name f.line f.lines ok.some_data ok.fits)
            ∙ ap (and_then (λ r. reading r)) e,
      )

  decode-sentinel : decode_frame opts.json [] (codes "[DONE]") ≡ sentinel
  unfolding decode_frame codes trim_right_of trim_space trim_left is_space same
  decode-sentinel = refl

  sentinel_line :
      (out : List (Step Event)) (b : Bool) (calls : List HookCall) (d : Bool)
      → read_lines opts (at out b calls d [] []) (data_lines (codes "[DONE]" ∷ []))
        ≡ reading (at out b calls d [] (codes "[DONE]"))
  unfolding codes byte_length rune_len
  sentinel_line out b calls d =
      all_lines opts out b calls d [] (codes "[DONE]") [] refl (omega arith)

  read_done :
      (out : List (Step Event)) (b : Bool) (calls : List HookCall) (d : Bool)
      → Willing opts.on_subscribed
      → (calls' : List HookCall) × (read_lines opts (at out b calls d [] []) (print_stream [])
          ≡ saw_done (at out true calls' d [] []))
  unfolding read_lines take_frame codes
  read_done out b calls d h =
      let (calls', e) = ended out b calls d [] (codes "[DONE]") sentinel h decode-sentinel in
      (
        calls',
        read_lines-append opts (at out b calls d [] []) (data_lines (codes "[DONE]" ∷ [])) ([] ∷ [])
            ∙ ap (and_then (λ r. read_lines opts r ([] ∷ []))) (sentinel_line out b calls d)
            ∙ ap (and_then (λ r. reading r)) e,
      )

  read_stream :
      (out : List (Step Event)) (b : Bool) (calls : List HookCall) (d : Bool) (fs : List Sent)
      → Willing opts.on_subscribed
      → All (Readable opts.json) fs
      → (calls' : List HookCall) × (d' : Bool) × (read_lines opts
            (at out b calls d [] [])
            (print_stream fs)
          ≡ saw_done (at (out ++ events_of fs) true calls' d' [] []))
  read_stream out b calls d [] h ok =
      let (calls', e) = read_done out b calls d h in
      (
        calls',
        d,
        e
            ∙ ap (λ (o : List (Step Event)). saw_done (at o true calls' d [] []))
                (sym (append-nil out)),
      )
  read_stream out b calls d (f ∷ fs) h ok =
      let (calls1, e1) = read_frame out b calls d f h ok.0 in
      let (calls2, d2, e2) =
        read_stream (out ++ value (some f.event) ∷ []) true calls1 true fs h ok.1 in
      (
        calls2,
        d2,
        read_lines-append opts (at out b calls d [] []) (print_frame f) (print_stream fs)
            ∙ ap (and_then (λ r. read_lines opts r (print_stream fs))) e1
            ∙ e2
            ∙ ap (λ (o : List (Step Event)). saw_done (at o true calls2 d2 [] []))
                (append_assoc out (value (some f.event) ∷ []) (events_of fs)),
      )

  received :
      (fs : List Sent) (err : ApiError) (ending : Ending)
      → Willing opts.on_subscribed
      → All (Readable opts.json) fs
      → (read_body opts (open_reader patient) (responds 200 err (print_stream fs) ending)).out
        ≡ events_of fs
  unfolding read_body finish open_reader
  received fs err ending h ok =
      ap (λ (p : Progress). (finish ending p).out) (read_stream [] false [] false fs h ok).2

-- Where the session is named, the server answers 200, OnSubscribed is unset or agrees, and each frame
-- of the server has a first data line that is not empty, fits and decodes to its event: a caller that
-- reads on is handed the events of the frames that the server printed, each once, in order and with no
-- error, on however many data lines each payload is printed.
pub stream-print_stream :
    (opts : StreamOptions) (fs : List Sent) (err : ApiError) (ending : Ending)
    → is_empty opts.session_id ≡ false
    → Willing opts.on_subscribed
    → All (Readable opts.json) fs
    → (stream opts patient (responds 200 err (print_stream fs) ending)).out ≡ events_of fs
unfolding stream
stream-print_stream opts fs err ending named h ok =
    if_intro (λ (r : Reader). r.out ≡ events_of fs) (is_empty opts.session_id)
      (λ e. absurd (true≢false (sym e ∙ named))) (λ _. received opts fs err ending h ok)
