-- ===== src/Errors.antt =====
-- errors.go: the sentinels as one type of error values, the rendering of text that the server
-- chose, and the classification of a response's status. A constructor of `Err` carries what the
-- code formats into the message.
pub mod Sanitized
pub mod Rendered
mod Examples
use omnigent_go_sdk.Prelude.{
  ℕ, suc, ◌+◌, Bool, true, false, not, ◌&&◌, ◌||◌, Option, none, some, List, [], ◌∷◌, ◌++◌, ltb,
  leb, ◌==◌, if◌then◌else◌, is_empty,
}
use omnigent_go_sdk.Prelude.Text.{Text, codes, trim_space, decimal}

-- What `Error` reads of an APIError; `body_length` is len(e.Body).
pub record ApiError : Type 0 where
  pub status_code : ℕ
  pub code : Text
  pub message : Text
  pub title : Text
  pub body_length : ℕ
  pub content_type : Text
  pub request_id : Text

pub data Err : Type 0 where
  invalid_argument : Text → Err
  listing_unbounded : Text → Err
  stream_protocol stream_frame_too_large stream_interrupted stream_idle : Err
  tool_call_duplicated : Text → Err
  tool_call_budget : ℕ → Err
  input_denied : Text → Err
  hook_panicked : Text → Text → Err
  turn_already_read turn_incomplete : Err
  tool_not_registered : Text → List Text → Err
  tool_failed : Text → Err
  turn_failed : Text → Err
  turn_superseded : Text → Err
  unsafe_redirect : Text → Err
  redirect_not_followed response_too_large truncated : Err
  no_such_agent : Text → List Text → Bool → Err
  api_error : ApiError → Err
  -- an error that a call of another package or of a caller's function returned
  returned : Text → Err

-- The ASCII and Latin-1 control characters.
unfoldable pub is_control : ℕ → Bool
is_control r = ltb r 0x20 || r == 0x7f || leb 0x80 r && leb r 0x9f

-- The loop of `sanitizeForError` over its builder `b`, `space` and `written`.
unfoldable pub sanitize_loop : ℕ → Text → Bool → ℕ → Text → Text
unfolding is_control
sanitize_loop max b space written [] = trim_space b
sanitize_loop max b space written (r ∷ s) =
    let gap = sanitize_loop max (b ++ 32 ∷ []) true (written + 1) s in
    let skipped = sanitize_loop max b space written s in
    let kept = sanitize_loop max (b ++ r ∷ []) false (written + 1) s in
    if is_control r
    then (if not space && ltb 0 written then gap else skipped)
    else if leb max written
    then trim_space b ++ codes "..."
    else kept

unfoldable pub sanitize_for_error : Text → ℕ → Text
unfolding sanitize_loop
sanitize_for_error s max = sanitize_loop max [] false 0 s

abbrev pub max_error_field_runes : ℕ
max_error_field_runes = 200

abbrev pub max_request_id_runes : ℕ
max_request_id_runes = 80

abbrev pub max_agent_name_runes : ℕ
max_agent_name_runes = 60

abbrev pub max_tool_name_runes : ℕ
max_tool_name_runes = 60

-- The sentinels that `APIError.Is` compares its target with.
pub data Sentinel : Type 0 where
  invalid_input unauthorized forbidden not_found conflict harness_not_configured validation :
      Sentinel
  unavailable server_error other_sentinel : Sentinel

-- The method `Is` of an APIError with this status.
unfoldable pub is_sentinel : ℕ → Sentinel → Bool
is_sentinel status invalid_input = status == 400
is_sentinel status unauthorized = status == 401
is_sentinel status forbidden = status == 403
is_sentinel status not_found = status == 404
is_sentinel status conflict = status == 409
is_sentinel status harness_not_configured = status == 412
is_sentinel status validation = status == 422
is_sentinel status unavailable = status == 503
is_sentinel status server_error = leb 500 status
is_sentinel status other_sentinel = false

-- The switch of `Error` over the sanitised headline and message.
unfoldable pub error_detail : ApiError → Text → Text → Text → Text
error_detail e label headline message =
    if not (is_empty headline) && not (is_empty message)
    then label ++ codes ": " ++ headline ++ codes ": " ++ message
    else if not (is_empty message)
    then label ++ codes ": " ++ message
    else if not (is_empty headline)
    then label ++ codes ": " ++ headline
    else if ltb 0 e.body_length
    then label
      ++ codes ": no error envelope, "
      ++ decimal e.body_length
      ++ codes "-byte "
      ++ (if is_empty e.content_type then codes "untyped" else e.content_type)
      ++ codes " body withheld (see APIError.Body)"
    else label

unfoldable pub error_headline : ApiError → Text
error_headline e =
    if is_empty e.title
    then sanitize_for_error e.code max_error_field_runes
    else sanitize_for_error e.title max_error_field_runes

-- `status_text` is http.StatusText of the status.
unfoldable pub error_label : (ℕ → Text) → ApiError → Text
error_label status_text e =
    if is_empty (status_text e.status_code)
    then decimal e.status_code
    else decimal e.status_code ++ codes " " ++ status_text e.status_code

unfoldable pub error_note : ApiError → Text
error_note e =
    if is_empty e.request_id
    then []
    else codes " (request id " ++ sanitize_for_error e.request_id max_request_id_runes ++ codes ")"

-- The method `Error` of an APIError.
unfoldable pub error_text : (ℕ → Text) → ApiError → Text
unfolding error_detail error_headline error_label error_note
error_text status_text e =
    codes "omnigent: "
    ++ error_detail e (error_label status_text e) (error_headline e)
        (sanitize_for_error e.message max_error_field_runes)
    ++ error_note e
