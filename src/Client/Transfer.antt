-- ===== src/Client/Transfer.antt =====
-- client.go: the answers to unary calls, uploads and downloads. A body is the bytes that arrive, and
-- how it ends after them; package encoding/json is a parameter that says how much of a body it read.
pub mod Whole
mod Examples
use omnigent_go_sdk.Prelude.{
  ℕ, zero, suc, ◌+◌, ◌⊎◌, inl, inr, Bool, true, false, ◌||◌, List, [], ◌∷◌, Option, none, some,
  if◌then◌else◌, ltb, leb, ◌==◌, length,
}
use omnigent_go_sdk.Prelude.Text.{Text}
use omnigent_go_sdk.Errors.{Err, ApiError, api_error, response_too_large, truncated}
use omnigent_go_sdk.Client.{Url, Net, classify_unfollowed_redirect}

-- `ending` is none where the body ends, and the error of the read where it breaks off.
pub record Content : Type 0 where
  pub bytes : List ℕ
  pub ending : Option Err

-- What net/http makes of a request: `location` is the header, and `error` what newAPIError reads.
pub data Reply : Type 0 where
  unreached : Err → Reply
  replied : (status : ℕ) (location : Text) (error : ApiError) → Content → Reply

abbrev pub take : ℕ → List ℕ → List ℕ
take zero bytes = []
take (suc n) [] = []
take (suc n) (b ∷ bytes) = b ∷ take n bytes

unfoldable pub refused_status : ℕ → Bool
refused_status status = ltb status 200 || leb 300 status

abbrev pub max_response_bytes : ℕ
max_response_bytes = 33554432

-- The decoder of a value: how many bytes it took from the reader, and the value or an error.
abbrev pub Decoder : Type 0 → Type 0
Decoder A = List ℕ → ℕ × (Err ⊎ A)

unfoldable pub decoded : {A : Type 0} → ℕ × (Err ⊎ A) → Err ⊎ A
decoded (read, inl err) =
    if leb (max_response_bytes + 1) read then inl response_too_large else inl err
decoded (read, inr value) = inr value

unfoldable pub decode_bounded : {A : Type 0} → Decoder A → Content → Err ⊎ A
unfolding decoded
decode_bounded decode content = decoded (decode (take (max_response_bytes + 1) content.bytes))

-- The answer to a unary call that decodes it.
unfoldable pub do_json : {A : Type 0} → Decoder A → Reply → Err ⊎ A
unfolding refused_status decode_bounded
do_json decode (unreached err) = inl err
do_json decode (replied status location error content) =
    if refused_status status then inl (api_error error) else decode_bounded decode content

-- The answer to an upload to `target`.
unfoldable pub do_upload : {A : Type 0} → Net → (target : Url) → Decoder A → Reply → Err ⊎ A
unfolding refused_status decode_bounded
do_upload net target decode (unreached err) = inl err
do_upload net target decode (replied status location error content) =
    if status == 307 || status == 308
    then inl (classify_unfollowed_redirect net target location)
    else if refused_status status
    then inl (api_error error)
    else decode_bounded decode content

-- The caller's writer: how many bytes it takes before it fails, where it does.
pub record Sink : Type 0 where
  pub room : Option ℕ
  pub full : Err

pub record Download : Type 0 where
  pub written : List ℕ
  pub err : Option Err

-- The byte behind the bound. The error of that read is dropped.
unfoldable pub probe : (max_bytes : ℕ) → Content → Download
probe max_bytes content = record {
  written = take max_bytes content.bytes;
  err = (if ltb max_bytes (length content.bytes) then some truncated else none);
}

-- io.CopyN, where the writer takes all that it is given.
unfoldable pub copied : (max_bytes : ℕ) → Content → Download
unfolding probe
copied max_bytes content =
    if leb max_bytes (length content.bytes)
    then probe max_bytes content
    else record { written = content.bytes; err = content.ending }

unfoldable pub copy_n : (max_bytes : ℕ) → Sink → Content → Option ℕ → Download
unfolding copied
copy_n max_bytes sink content none = copied max_bytes content
copy_n max_bytes sink content (some room) =
    if ltb room (length (take max_bytes content.bytes))
    then record { written = take room content.bytes; err = some sink.full }
    else copied max_bytes content

unfoldable pub do_download : (max_bytes : ℕ) → Sink → Reply → Download
unfolding refused_status copy_n
do_download max_bytes sink (unreached err) = record { written = []; err = some err }
do_download max_bytes sink (replied status location error content) =
    if refused_status status
    then record { written = []; err = some (api_error error) }
    else copy_n max_bytes sink content sink.room
