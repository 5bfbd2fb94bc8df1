-- ===== src/Client/New.antt =====
-- client.go: `New`, which builds a Client from a base URL and options.
pub mod Built
pub mod Guarded
pub mod Timeouts
pub mod Withheld
use omnigent_go_sdk.Prelude.{
  ℕ, ◌⊎◌, inl, inr, Bool, true, false, not, ◌||◌, ◌&&◌, List, [], ◌∷◌, ◌++◌, Option, none, some,
  if◌then◌else◌, is_empty, ltb, leb, ◌==◌,
}
use omnigent_go_sdk.Prelude.Int.{ℤ, pos, negsuc}
use omnigent_go_sdk.Prelude.Maps.{TextMap, lookup, insert}
use omnigent_go_sdk.Prelude.Text.{Text, codes, same, has_suffix}
use omnigent_go_sdk.Errors.{Err, invalid_argument}
use omnigent_go_sdk.Client.{Url, Net, has_user, sends_credential_in_clear, redact_url}
use omnigent_go_sdk.Client.Config.{
  Http, Policy, unset_policy, package_policy, caller_policy, Transport, package_transport,
  HttpClient, Config, default_unary_timeout, min_response_header_timeout, ClientOption, set_header,
  zero_or, apply_all, initial_config,
}

pub record Client : Type 0 where
  pub base_url : Url
  pub unary : HttpClient
  pub stream : HttpClient
  pub transfer : HttpClient
  pub header : TextMap Text
  pub idle_timeout : ℕ
  pub owns_transport : Bool

unfoldable pub default_transport : (unary_timeout : ℕ) → Transport
default_transport t =
    package_transport (if ltb t min_response_header_timeout then min_response_header_timeout else t)

unfoldable pub base_client : (unary_timeout : ℕ) → Option HttpClient → HttpClient
unfolding default_transport zero_or
base_client unary_timeout (some client) = client
base_client unary_timeout none =
    let timeout = zero_or default_unary_timeout unary_timeout in
    record { timeout = pos timeout; policy = unset_policy; transport = default_transport timeout }

unfoldable pub or_package : Policy → Policy
or_package unset_policy = package_policy
or_package p = p

unfoldable pub unary_of : Config → HttpClient
unfolding base_client or_package
unary_of cfg =
    let base = base_client cfg.unary_timeout cfg.http_client in
    record base {
      timeout = (if ltb 0 cfg.unary_timeout then pos cfg.unary_timeout else base.timeout);
      policy = or_package base.policy;
    }

unfoldable pub is_none : Option HttpClient → Bool
is_none none = true
is_none (some client) = false

unfoldable pub with_origin : Http → Config → Config
unfolding set_header
with_origin http cfg =
    if is_empty cfg.origin then cfg else set_header http (codes "Origin") cfg.origin cfg

unfoldable pub client_of : Http → Url → Config → Client
unfolding unary_of is_none with_origin
client_of http base_url cfg =
    let unary = unary_of cfg in
    record {
      base_url = base_url;
      unary = unary;
      stream = record unary { timeout = pos 0 };
      transfer = record unary { timeout = pos cfg.transfer_timeout };
      header = (with_origin http cfg).header;
      idle_timeout = cfg.idle_timeout;
      owns_transport = is_none cfg.http_client;
    }

abbrev pub default_base_url : Text
default_base_url = codes "http://127.0.0.1:6767"

-- The checks of a base URL that parses.
unfoldable pub check_base : Net → Url → Option Err
unfolding has_user
check_base net u =
    if not (same u.scheme (codes "http")) && not (same u.scheme (codes "https"))
    then some (
        invalid_argument (
          codes "base URL "
          ++ redact_url net u
          ++ codes ": want an http or https scheme, got "
          ++ u.scheme))
    else if is_empty u.host
    then some (invalid_argument (codes "base URL " ++ redact_url net u ++ codes " has no host"))
    else if has_user u
    then some
        (invalid_argument (codes "base URL " ++ redact_url net u ++ codes " carries userinfo"))
    else none

unfoldable pub slashed : Url → Url
slashed u = if has_suffix u.path (codes "/") then u else record u { path = u.path ++ codes "/" }

unfoldable pub guarded : Net → Http → Url → Err ⊎ Config → Err ⊎ Client
unfolding client_of
guarded net http u (inl err) = inl err
guarded net http u (inr cfg) =
    if cfg.credentialed && not cfg.allow_plaintext_credential && sends_credential_in_clear net u
    then inl (
        invalid_argument (
          codes "base URL "
          ++ redact_url net u
          ++ codes " is plain http and its host is not loopback"))
    else inr (client_of http u cfg)

unfoldable pub configured : Net → Http → List ClientOption → Url → Option Err → Err ⊎ Client
unfolding slashed guarded apply_all initial_config
configured net http opts u (some err) = inl err
configured net http opts u none = guarded net http (slashed u) (apply_all http opts initial_config)

unfoldable pub new_parsed : Net → Http → List ClientOption → Text ⊎ Url → Err ⊎ Client
unfolding configured check_base
new_parsed net http opts (inl reason) = inl (invalid_argument (codes "parse base URL: " ++ reason))
new_parsed net http opts (inr u) = configured net http opts u (check_base net u)

-- `New`
unfoldable pub new : Net → Http → (base_url : Text) → List ClientOption → Err ⊎ Client
unfolding new_parsed
new net http base_url opts =
    new_parsed net http opts (net.parse (if is_empty base_url then default_base_url else base_url))
