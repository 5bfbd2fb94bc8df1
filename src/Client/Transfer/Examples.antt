-- ===== src/Client/Transfer/Examples.antt =====
-- A content of three bytes that breaks off, and a bound of two.
use omnigent_go_sdk.Prelude.{[], ◌∷◌, none, some}
use omnigent_go_sdk.Errors.{ApiError, stream_interrupted}
use omnigent_go_sdk.Client.Transfer.{Content, Reply, replied, Sink}

abbrev three_bytes : Content
three_bytes = record { bytes = 1 ∷ 2 ∷ 3 ∷ []; ending = some stream_interrupted }

abbrev any_sink : Sink
any_sink = record { room = none; full = stream_interrupted }

abbrev no_error : ApiError
no_error = record {
  status_code = 200;
  code = [];
  message = [];
  title = [];
  body_length = 0;
  content_type = [];
  request_id = [];
}

abbrev the_reply : Reply
the_reply = replied 200 [] no_error three_bytes
