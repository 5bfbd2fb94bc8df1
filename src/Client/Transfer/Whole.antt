-- ===== src/Client/Transfer/Whole.antt =====
-- client.go: what doDownload writes, and when it reports no error.
use omnigent_go_sdk.Prelude.{ℕ, ◌≤◌, ◌<◌, ◌≡◌, [], none, some, true, false, length}
use omnigent_go_sdk.Prelude.Text.{Text}
use omnigent_go_sdk.Errors.{Err, ApiError, api_error, truncated}
use omnigent_go_sdk.Client.Transfer.{
  Content, Reply, unreached, replied, take, refused_status, Sink, Download,
}

-- What io.CopyN and the read behind it come to, for a content and a bound.
pub data Downloaded (max_bytes : ℕ) (content : Content) : Download → Type 0 where
  -- all of a content that ended, with no error
  whole :
      length content.bytes ≤ max_bytes
      → content.ending ≡ none
      → Downloaded max_bytes content (record { written = content.bytes; err = none })
  -- a content that broke off at the bound, with no error
  unnoticed :
      (err : Err)
      → length content.bytes ≡ max_bytes
      → content.ending ≡ some err
      → Downloaded max_bytes content (record { written = content.bytes; err = none })
  -- a content longer than the bound
  cut :
      max_bytes < length content.bytes
      → Downloaded max_bytes content
          (record { written = take max_bytes content.bytes; err = some truncated })
  -- a content that broke off before the bound
  broke_off :
      (err : Err)
      → length content.bytes < max_bytes
      → content.ending ≡ some err
      → Downloaded max_bytes content (record { written = content.bytes; err = some err })

-- What a download comes to, for what the server answers and what the writer takes.
pub data Answered (max_bytes : ℕ) (sink : Sink) : Reply → Download → Type 0 where
  not_reached :
      (err : Err)
      → Answered max_bytes sink (unreached err) (record { written = []; err = some err })
  refused :
      (status : ℕ) (location : Text) (error : ApiError) (content : Content)
      → refused_status status ≡ true
      → Answered max_bytes sink
          (replied status location error content)
          (record { written = []; err = some (api_error error) })
  -- the writer fails before it has taken what it is given
  not_taken :
      (status : ℕ) (location : Text) (error : ApiError) (content : Content) (room : ℕ)
      → refused_status status ≡ false
      → sink.room ≡ some room
      → room < length (take max_bytes content.bytes)
      → Answered max_bytes sink
          (replied status location error content)
          (record { written = take room content.bytes; err = some sink.full })
  taken :
      (status : ℕ) (location : Text) (error : ApiError) (content : Content) (d : Download)
      → refused_status status ≡ false
      → ((room : ℕ) → sink.room ≡ some room → length (take max_bytes content.bytes) ≤ room)
      → Downloaded max_bytes content d
      → Answered max_bytes sink (replied status location error content) d
