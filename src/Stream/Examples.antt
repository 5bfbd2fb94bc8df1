-- ===== src/Stream/Examples.antt =====
-- A server that prints two frames of an event that is not registered, and a monitor of ten ticks.
use omnigent_go_sdk.Prelude.{
  ◌≤◌, ◌≡◌, refl, sym, subst, inl, inr, false, List, [], ◌∷◌, none, some, All, arith,
}
use omnigent_go_sdk.Prelude.Text.{
  codes, same, byte_length, rune_len, has_prefix, trim_prefix, trim_space, trim_left, trim_right_of,
  is_space,
}
use omnigent_go_sdk.Errors.{ApiError, stream_protocol}
use omnigent_go_sdk.Wire.{other_event}
use omnigent_go_sdk.Decode.{Json, event_registry, decode_by_type}
use omnigent_go_sdk.Stream.{
  max_frame_bytes, decode_frame, decode_typed, frame_of, StreamOptions, Reader, reading, Ending,
  end_of_body, Connection, responds, open_reader, stream, read_body, read_lines, read_line,
  end_frame, add_data, take_frame, deliver, subscribe, call_subscribed, answered, hand, finish,
}
use omnigent_go_sdk.Stream.Kept.{Delivers, delivers, Returned}
use omnigent_go_sdk.Stream.Promises.{stream-Returned, payload-Bounded}
use omnigent_go_sdk.Stream.Clean.{Closed, stream-Closed}
use omnigent_go_sdk.Stream.Printed.{Sent, Readable, print_stream, patient, at}
use omnigent_go_sdk.Stream.RoundTrip.{events_of, agrees, stream-print_stream}

-- Every payload has the discriminator x.
abbrev one_type : Json
one_type = record { type_of = λ _. inr (120 ∷ []); decode_into = λ _ _. inl stream_protocol }

abbrev watched : StreamOptions
watched = record {
  json = one_type;
  session_id = 115 ∷ [];
  on_subscribed = some none;
  on_skipped_frame = none;
}

-- A payload of two lines, { and }.
abbrev braces : Sent
braces = record {
  name = 120 ∷ [];
  line = 123 ∷ [];
  lines = (125 ∷ []) ∷ [];
  event = other_event (120 ∷ []);
}

abbrev no_error : ApiError
no_error = record {
  status_code = 200;
  code = [];
  message = [];
  title = [];
  body_length = 0;
  content_type = [];
  request_id = [];
}

abbrev at_end : Ending
at_end = record { expired = false; cancelled = none; scan = end_of_body }

abbrev two_frames : List Sent
two_frames = braces ∷ braces ∷ []

abbrev two_printed : Connection
two_printed = responds 200 no_error (print_stream two_frames) at_end

braces-Readable : Readable one_type braces
unfolding decode_frame decode_typed frame_of decode_by_type event_registry byte_length rune_len
    trim_right_of trim_space trim_left is_space same codes
braces-Readable = record { some_data = refl; fits = omega arith; decodes = refl }

stream-print_stream_example : (stream watched patient two_printed).out ≡ events_of two_frames
stream-print_stream_example =
    stream-print_stream watched two_frames no_error at_end refl agrees
      (braces-Readable, (braces-Readable, tt))

stream-Returned_example : Returned watched patient (stream watched patient two_printed)
stream-Returned_example = stream-Returned watched patient two_printed

two_delivered : All Delivers (stream watched patient two_printed).out
two_delivered =
    subst (All Delivers)
      (sym (
        stream-print_stream watched two_frames no_error at_end refl agrees
          (braces-Readable, (braces-Readable, tt))))
      (delivers (other_event (120 ∷ [])), (delivers (other_event (120 ∷ [])), tt))

two_going : (stream watched patient two_printed).stopped ≡ false
unfolding stream read_body open_reader read_lines read_line end_frame add_data take_frame deliver
    subscribe call_subscribed answered hand finish decode_frame decode_typed frame_of decode_by_type
    event_registry byte_length rune_len trim_right_of trim_space trim_left is_space same codes
    has_prefix trim_prefix
two_going = refl

stream-Closed_example : Closed watched patient two_printed (stream watched patient two_printed)
stream-Closed_example = stream-Closed watched patient two_printed two_delivered two_going

abbrev half_read : Reader
half_read = at [] false [] false [] (123 ∷ [])

half_lines : read_lines watched (open_reader patient) ((codes "data: {") ∷ []) ≡ reading half_read
unfolding read_lines read_line add_data open_reader codes has_prefix trim_prefix byte_length
    rune_len
half_lines = refl

payload-Bounded_example : byte_length (123 ∷ []) ≤ max_frame_bytes
payload-Bounded_example =
    payload-Bounded watched patient ((codes "data: {") ∷ []) half_read half_lines
