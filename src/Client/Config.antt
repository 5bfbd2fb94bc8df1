-- ===== src/Client/Config.antt =====
-- client.go: the options of `New` and the configuration that they write. A duration is a count of
-- nanoseconds.
use omnigent_go_sdk.Prelude.{
  ℕ, ◌⊎◌, inl, inr, Bool, true, false, List, [], ◌∷◌, ◌++◌, Option, none, some, if◌then◌else◌,
  is_empty, ◌==◌,
}
use omnigent_go_sdk.Prelude.Int.{ℤ, pos, negsuc}
use omnigent_go_sdk.Prelude.Maps.{TextMap, lookup, insert}
use omnigent_go_sdk.Prelude.Text.{Text, codes}
use omnigent_go_sdk.Errors.{Err, invalid_argument}

-- net/http: the canonical name of a header, and the text of a cookie with its name and value.
pub record Http : Type 0 where
  pub canonical : Text → Text
  pub cookie_text : (name value : Text) → Text

-- CheckRedirect of an http.Client: not set, this package's, or one that the caller set.
pub data Policy : Type 0 where
  unset_policy package_policy : Policy
  caller_policy : Text → Policy

-- The transport of an http.Client: the caller's, or this package's with its bound on headers.
pub data Transport : Type 0 where
  caller_transport : Transport
  package_transport : (response_header_timeout : ℕ) → Transport

pub record HttpClient : Type 0 where
  pub timeout : ℤ
  pub policy : Policy
  pub transport : Transport

pub record Config : Type 0 where
  pub origin : Text
  pub http_client : Option HttpClient
  pub header : TextMap Text
  pub idle_timeout : ℕ
  pub unary_timeout : ℕ
  pub transfer_timeout : ℕ
  pub credentialed : Bool
  pub allow_plaintext_credential : Bool

abbrev pub default_unary_timeout : ℕ
default_unary_timeout = 90000000000

abbrev pub min_response_header_timeout : ℕ
min_response_header_timeout = 30000000000

abbrev pub default_stream_idle_timeout : ℕ
default_stream_idle_timeout = 45000000000

-- The functions that make an option.
pub data ClientOption : Type 0 where
  with_http_client : Option HttpClient → ClientOption
  with_auth_header with_session_cookie : (name value : Text) → ClientOption
  with_bearer_token with_internal_client_origin with_user_agent : Text → ClientOption
  with_insecure_credential_transport : ClientOption
  with_transfer_timeout with_unary_timeout with_stream_idle_timeout : ℤ → ClientOption

-- header.Set
unfoldable pub set_header : Http → (name value : Text) → Config → Config
set_header http name value cfg = record cfg {
  header = insert (http.canonical name) value cfg.header;
}

-- header.Get
unfoldable pub header_or_empty : Option Text → Text
header_or_empty none = []
header_or_empty (some value) = value

unfoldable pub credential : Http → (name value : Text) → Config → Config
unfolding set_header
credential http name value cfg = record (set_header http name value cfg) { credentialed = true }

unfoldable pub joined_cookie : (existing cookie : Text) → Text
joined_cookie existing cookie =
    if is_empty existing then cookie else existing ++ codes "; " ++ cookie

unfoldable pub add_cookie : Http → (name value : Text) → Config → Config
unfolding credential header_or_empty joined_cookie
add_cookie http name value cfg =
    credential http (codes "Cookie")
      (joined_cookie (header_or_empty (lookup (http.canonical (codes "Cookie")) cfg.header))
        (http.cookie_text name value))
      cfg

unfoldable pub zero_or : (standard d : ℕ) → ℕ
zero_or standard d = if d == 0 then standard else d

-- The method `apply` of an option.
unfoldable pub apply : Http → ClientOption → Config → Err ⊎ Config
unfolding set_header credential add_cookie zero_or
apply http (with_http_client none) cfg = inl (invalid_argument (codes "nil client"))
apply http (with_http_client (some client)) cfg = inr (record cfg { http_client = some client })
apply http (with_auth_header name value) cfg =
    if is_empty name
    then inl (invalid_argument (codes "empty header name"))
    else inr (credential http name value cfg)
apply http (with_bearer_token token) cfg =
    if is_empty token
    then inl (invalid_argument (codes "empty token"))
    else inr (credential http (codes "Authorization") (codes "Bearer " ++ token) cfg)
apply http (with_session_cookie name value) cfg =
    if is_empty name
    then inl (invalid_argument (codes "empty cookie name"))
    else inr (add_cookie http name value cfg)
apply http with_insecure_credential_transport cfg =
    inr (record cfg { allow_plaintext_credential = true })
apply http (with_internal_client_origin origin) cfg =
    if is_empty origin
    then inl (invalid_argument (codes "origin is empty"))
    else inr (record cfg { origin = origin })
apply http (with_user_agent agent) cfg = inr (set_header http (codes "User-Agent") agent cfg)
apply http (with_transfer_timeout (negsuc n)) cfg =
    inl (invalid_argument (codes "negative duration"))
apply http (with_transfer_timeout (pos d)) cfg = inr (record cfg { transfer_timeout = d })
apply http (with_unary_timeout (negsuc n)) cfg = inl (invalid_argument (codes "negative duration"))
apply http (with_unary_timeout (pos d)) cfg =
    inr (record cfg { unary_timeout = zero_or default_unary_timeout d })
apply http (with_stream_idle_timeout (negsuc n)) cfg =
    inl (invalid_argument (codes "negative duration"))
apply http (with_stream_idle_timeout (pos d)) cfg =
    inr (record cfg { idle_timeout = zero_or default_stream_idle_timeout d })

unfoldable pub then_apply : (Config → Err ⊎ Config) → Err ⊎ Config → Err ⊎ Config
then_apply f (inl err) = inl err
then_apply f (inr cfg) = f cfg

unfoldable pub apply_all : Http → List ClientOption → Config → Err ⊎ Config
unfolding apply then_apply
apply_all http [] cfg = inr cfg
apply_all http (opt ∷ opts) cfg = then_apply (apply_all http opts) (apply http opt cfg)

unfoldable pub initial_config : Config
initial_config = record {
  origin = [];
  http_client = none;
  header = [];
  idle_timeout = default_stream_idle_timeout;
  unary_timeout = 0;
  transfer_timeout = 0;
  credentialed = false;
  allow_plaintext_credential = false;
}
