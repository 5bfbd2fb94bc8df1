-- ===== src/Stream.antt =====
-- stream.go: the reader of server-sent events. The lines are those of bufio.Scanner, and how they
-- ended is a parameter; the monitor of silence is in Stream/Monitor.
pub mod Kept
pub mod Runs
pub mod Lines
pub mod Promises
pub mod Clean
pub mod Printed
pub mod RoundTrip
pub mod Monitor
mod Examples
use omnigent_go_sdk.Prelude.{
  ℕ, zero, suc, ◌+◌, ◌⊎◌, inl, inr, Bool, true, false, not, ◌||◌, ◌&&◌, List, [], ◌∷◌, ◌++◌, Option,
  none, some, if◌then◌else◌, is_empty, ltb, leb, ◌==◌,
}
use omnigent_go_sdk.Prelude.Text.{
  Text, codes, same, has_prefix, trim_prefix, trim_space, byte_length, trim_right_of,
}
use omnigent_go_sdk.Errors.{
  Err, ApiError, api_error, invalid_argument, stream_protocol, stream_frame_too_large,
  stream_interrupted, stream_idle,
}
use omnigent_go_sdk.Wire.{Event}
use omnigent_go_sdk.Sequence.{Step, value, failure, Consumer, handed}
use omnigent_go_sdk.Decode.{Json, decode_by_type}

abbrev pub max_frame_bytes : ℕ
max_frame_bytes = 8388608

-- What a complete frame carries.
pub data Frame : Type 0 where
  nothing_in sentinel : Frame
  carries : Event → Frame
  unreadable : Err → Frame

unfoldable pub frame_of : Err ⊎ Event → Frame
frame_of (inl err) = unreadable err
frame_of (inr event) = carries event

-- The discriminator is the payload's own, or else the name of the event line.
unfoldable pub decode_typed : Json → (name payload : Text) → Err ⊎ Text → Frame
unfolding frame_of
decode_typed json name payload (inl err) = unreadable stream_protocol
decode_typed json name payload (inr probe) =
    let typ = if is_empty probe then name else probe in
    if is_empty typ then unreadable stream_protocol else frame_of (decode_by_type json typ payload)

unfoldable pub decode_frame : Json → (name payload : Text) → Frame
unfolding decode_typed
decode_frame json name payload =
    let trimmed = trim_right_of 10 payload in
    if is_empty (trim_space trimmed)
    then nothing_in
    else if same (trim_space trimmed) (codes "[DONE]")
    then sentinel
    else decode_typed json name trimmed (json.type_of trimmed)

-- The session id of a frame and of a subscription is that of the options.
pub record SkippedFrame : Type 0 where
  pub name : Text
  pub payload : Text
  pub err : Err

-- Idle and IdleTimeout, which only the request and the monitor read, are left out. A hook is none
-- where it is not set, and answers an error or none; OnSkippedFrame may answer each
-- frame in another way.
pub record StreamOptions : Type 0 where
  pub json : Json
  pub session_id : Text
  pub on_subscribed : Option (Option Err)
  pub on_skipped_frame : Option (ℕ → SkippedFrame → Option Err)

-- A call of OnSubscribed is kept with what `yield` had been handed by then.
pub data HookCall : Type 0 where
  subscribed_call : List (Step Event) → HookCall
  skipped_call : SkippedFrame → HookCall

pub record Reader : Type 0 where
  pub yield : Consumer Event
  -- what `yield` was handed, in order
  pub out : List (Step Event)
  pub stopped : Bool
  -- the hooks that were called, in order
  pub calls : List HookCall
  pub name : Text
  pub payload : Text
  pub subscribed : Bool
  pub delivered : Bool
  pub skipped : ℕ
  pub first_skip : Option Err

-- Whether the loop reads on, was broken off at the sentinel, or the function returned.
pub data Progress : Type 0 where
  reading saw_done over : Reader → Progress

unfoldable pub hand : Reader → Step Event → Reader
hand r step =
    let out = handed r.stopped r.out step in
    record r { out = out; stopped = r.stopped || not (r.yield out) }

unfoldable pub abort : Reader → Err → Progress
unfolding hand
abort r err = over (hand r (failure none err))

-- The answer of a hook: an error ends the stream.
unfoldable pub answered : Reader → Option Err → Progress
unfolding abort
answered r none = reading r
answered r (some err) = abort r err

unfoldable pub call_subscribed : Reader → Option (Option Err) → Progress
unfolding answered
call_subscribed r none = reading r
call_subscribed r (some answer) =
    answered (record r { calls = r.calls ++ subscribed_call r.out ∷ [] }) answer

-- The first frame of any kind runs OnSubscribed.
unfoldable pub subscribe : StreamOptions → Reader → Progress
unfolding call_subscribed
subscribe opts r =
    if r.subscribed
    then reading r
    else call_subscribed (record r { subscribed = true }) opts.on_subscribed

unfoldable pub call_skipped :
    Reader → SkippedFrame → Option (ℕ → SkippedFrame → Option Err) → ℕ → Progress
unfolding answered
call_skipped r frame none n = reading r
call_skipped r frame (some hook) n =
    answered (record r { calls = r.calls ++ skipped_call frame ∷ [] }) (hook n frame)

abbrev first_of : Option Err → Err → Option Err
first_of none err = some err
first_of (some old) err = some old

unfoldable pub deliver : Reader → Event → Progress
unfolding hand
deliver r event =
    let r' = record (hand r (value (some event))) { delivered = true } in
    if r'.stopped then over r' else reading r'

-- The second switch on a complete frame; the name and the payload are the frame's.
unfoldable pub take_frame : StreamOptions → (name payload : Text) → Reader → Frame → Progress
unfolding call_skipped deliver
take_frame opts name payload r (unreadable err) =
    call_skipped (record r { skipped = suc r.skipped; first_skip = first_of r.first_skip err })
      (record { name = name; payload = payload; err = err }) opts.on_skipped_frame r.skipped
take_frame opts name payload r sentinel = saw_done r
take_frame opts name payload r nothing_in = reading r
take_frame opts name payload r (carries event) = deliver r event

abbrev then_take : StreamOptions → (name payload : Text) → Frame → Progress → Progress
then_take opts name payload frame (reading r) = take_frame opts name payload r frame
then_take opts name payload frame p = p

-- The blank line behind a frame.
unfoldable pub end_frame : StreamOptions → Reader → Progress
unfolding decode_frame subscribe take_frame
end_frame opts r =
    then_take opts r.name r.payload (decode_frame opts.json r.name r.payload)
      (subscribe opts (record r { name = []; payload = [] }))

unfoldable pub add_data : Reader → (chunk : Text) → Progress
unfolding abort
add_data r chunk =
    if ltb max_frame_bytes (byte_length r.payload + byte_length chunk + 1)
    then abort r stream_frame_too_large
    else reading
        (record r { payload = (if is_empty r.payload then chunk else r.payload ++ 10 ∷ chunk) })

unfoldable pub read_line : StreamOptions → Reader → Text → Progress
unfolding end_frame add_data
read_line opts r line =
    if is_empty line
    then end_frame opts r
    else if has_prefix line (codes ":")
    then reading r
    else if has_prefix line (codes "event:")
    then reading (record r { name = trim_space (trim_prefix line (codes "event:")) })
    else if has_prefix line (codes "data:")
    then add_data r (trim_prefix (trim_prefix line (codes "data:")) (codes " "))
    else reading r

abbrev pub and_then : (Reader → Progress) → Progress → Progress
and_then f (reading r) = f r
and_then f p = p

unfoldable pub read_lines : StreamOptions → Reader → List Text → Progress
unfolding read_line
read_lines opts r [] = reading r
read_lines opts r (line ∷ lines) = and_then (λ r'. read_lines opts r' lines) (read_line opts r line)

-- Why there are no more lines: whether the monitor fired, the error of the caller's context, and
-- the scanner's.
pub data ScanError : Type 0 where
  end_of_body too_long : ScanError
  broken : Err → ScanError

pub record Ending : Type 0 where
  pub expired : Bool
  pub cancelled : Option Err
  pub scan : ScanError

unfoldable pub cut_off_by : ScanError → Err
cut_off_by end_of_body = stream_interrupted
cut_off_by too_long = stream_frame_too_large
cut_off_by (broken err) = stream_interrupted

unfoldable pub why_cut_off : Ending → Option Err → Err
unfolding cut_off_by
why_cut_off ending (some err) = if ending.expired then stream_idle else err
why_cut_off ending none = if ending.expired then stream_idle else cut_off_by ending.scan

-- The switch behind the loop.
unfoldable pub finish : Ending → Progress → Reader
unfolding hand why_cut_off
finish ending (over r) = r
finish ending (saw_done r) =
    if ltb 0 r.skipped && not r.delivered then hand r (failure none stream_protocol) else r
finish ending (reading r) = hand r (failure none (why_cut_off ending ending.cancelled))

-- What the request for the stream came to.
pub data Connection : Type 0 where
  unreachable : Err → Connection
  responds : (status : ℕ) → ApiError → List Text → Ending → Connection

unfoldable pub open_reader : Consumer Event → Reader
open_reader yield = record {
  yield = yield;
  out = [];
  stopped = false;
  calls = [];
  name = [];
  payload = [];
  subscribed = false;
  delivered = false;
  skipped = 0;
  first_skip = none;
}

unfoldable pub read_body : StreamOptions → Reader → Connection → Reader
unfolding hand finish read_lines
read_body opts r (unreachable err) = hand r (failure none err)
read_body opts r (responds status err lines ending) =
    if status == 200
    then finish ending (read_lines opts r lines)
    else hand r (failure none (api_error err))

unfoldable pub stream : StreamOptions → Consumer Event → Connection → Reader
unfolding hand open_reader read_body
stream opts yield connection =
    if is_empty opts.session_id
    then hand (open_reader yield) (failure none (invalid_argument (codes "sessionID is required")))
    else read_body opts (open_reader yield) connection
