-- ===== src/Client.antt =====
-- client.go: URLs as the policies read them, the redirect policy, and the credential's scheme. The text
-- of an error is cut down to what names the case and to what the code formats into it.
pub mod Redirects
pub mod InClear
pub mod Uploads
pub mod Config
pub mod New
pub mod Transfer
mod Examples
use omnigent_go_sdk.Prelude.{
  ℕ, ◌⊎◌, inl, inr, Bool, true, false, not, ◌||◌, ◌&&◌, List, [], ◌∷◌, ◌++◌, Option, none, some,
  if◌then◌else◌, is_empty, ltb, length,
}
use omnigent_go_sdk.Prelude.Text.{Text, codes, same, has_suffix}
use omnigent_go_sdk.Errors.{Err, unsafe_redirect, redirect_not_followed}

-- What the code reads of a url.URL; `port` is Port, "" where there is none.
pub record Url : Type 0 where
  pub scheme : Text
  pub user : Option Text
  pub host : Text
  pub hostname : Text
  pub port : Text
  pub path : Text

-- Packages net/url, net and strings: `parse_ip` is net.ParseIP with IsLoopback of the address, and a
-- URL that does not parse is the reason of the error.
pub record Net : Type 0 where
  pub parse : Text → Text ⊎ Url
  pub url_text : Url → Text
  pub resolve_reference : Url → Url → Url
  pub equal_fold : Text → Text → Bool
  pub to_lower : Text → Text
  pub parse_ip : Text → Option Bool

unfoldable pub reachable_scheme : Text → Bool
reachable_scheme scheme = same scheme (codes "http") || same scheme (codes "https")

unfoldable pub effective_port : Url → Text
effective_port u =
    if not (is_empty u.port)
    then u.port
    else if same u.scheme (codes "https")
    then codes "443"
    else if same u.scheme (codes "http")
    then codes "80"
    else []

unfoldable pub same_endpoint : Net → (origin next : Url) → Bool
unfolding effective_port
same_endpoint net origin next =
    if not (net.equal_fold origin.hostname next.hostname)
    then false
    else if same (effective_port origin) (effective_port next)
    then true
    else same origin.scheme (codes "http")
      && same next.scheme (codes "https")
      && same (effective_port origin) (codes "80")
      && same (effective_port next) (codes "443")

unfoldable pub has_user : Url → Bool
has_user u = elim u.user [ none ↦ false | some _ ↦ true ]

-- What the policy reads of a request.
pub record HttpRequest : Type 0 where
  pub method : Text
  pub url : Url

abbrev pub max_redirects : ℕ
max_redirects = 10

-- `origin` is via[0] and `later` the rest of `via`.
unfoldable pub check_redirect :
    Net → (req origin : HttpRequest) → (later : List HttpRequest) → Option Err
unfolding reachable_scheme same_endpoint has_user
check_redirect net req origin later =
    if ltb max_redirects (length (origin ∷ later))
    then some (unsafe_redirect (codes "stopped after 10 redirects"))
    else if not (reachable_scheme req.url.scheme)
    then some
        (unsafe_redirect (origin.url.host ++ codes " redirected to scheme " ++ req.url.scheme))
    else if not (same_endpoint net origin.url req.url)
    then some (unsafe_redirect (origin.url.host ++ codes " redirected to " ++ req.url.host))
    else if same origin.url.scheme (codes "https") && not (same req.url.scheme (codes "https"))
    then some
        (unsafe_redirect (origin.url.host ++ codes " redirected from https to " ++ req.url.scheme))
    else if has_user req.url
    then some (unsafe_redirect (origin.url.host ++ codes " redirected to a location with userinfo"))
    else if not (same req.method origin.method)
    then some (
        unsafe_redirect (
          codes "a redirect rewrote "
          ++ origin.method
          ++ codes " "
          ++ origin.url.path
          ++ codes " as "
          ++ req.method))
    else none

-- The answer to an upload with status 307 or 308; `location` is its Location header.
unfoldable pub classify_location : Net → (origin next : Url) → Err
unfolding reachable_scheme same_endpoint has_user
classify_location net origin next =
    if not (reachable_scheme next.scheme) || not (same_endpoint net origin next) || has_user next
    then unsafe_redirect (origin.host ++ codes " answered for an upload to " ++ next.host)
    else redirect_not_followed

unfoldable pub classify_parsed : Net → (origin : Url) → Text ⊎ Url → Err
unfolding classify_location
classify_parsed net origin (inl reason) =
    unsafe_redirect (origin.host ++ codes " answered with a Location that does not parse")
classify_parsed net origin (inr next) =
    classify_location net origin (net.resolve_reference origin next)

unfoldable pub classify_unfollowed_redirect : Net → (origin : Url) → (location : Text) → Err
unfolding classify_parsed
classify_unfollowed_redirect net origin location = classify_parsed net origin (net.parse location)

unfoldable pub loopback_name : Net → (host : Text) → Option Bool → Bool
loopback_name net host (some loopback) = loopback
loopback_name net host none =
    same (net.to_lower host) (codes "localhost")
    || has_suffix (net.to_lower host) (codes ".localhost")

unfoldable pub is_loopback : Net → Url → Bool
unfolding loopback_name
is_loopback net u = loopback_name net u.hostname (net.parse_ip u.hostname)

unfoldable pub sends_credential_in_clear : Net → Url → Bool
unfolding is_loopback
sends_credential_in_clear net u = not (same u.scheme (codes "https")) && not (is_loopback net u)

unfoldable pub redact_url : Net → Url → Text
redact_url net u = net.url_text (record u { user = none })
