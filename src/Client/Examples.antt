-- ===== src/Client/Examples.antt =====
-- A base URL with https and one with userinfo, a bearer token, and redirects on one host. A redirect between two spellings of localhost.
use omnigent_go_sdk.Prelude.{
  ℕ, ◌+◌, ltb, ◌&&◌, ◌≡◌, ◌↔◌, refl, ◌⊎◌, inr, true, false, List, [], ◌∷◌, ◌++◌, none,
  if◌then◌else◌, is_empty,
}
use omnigent_go_sdk.Prelude.Maps.{insert}
use omnigent_go_sdk.Prelude.Text.{Text, codes, same, same_iff, has_prefix, has_suffix}
use omnigent_go_sdk.Errors.{redirect_not_followed}
use omnigent_go_sdk.Client.{
  Url, Net, HttpRequest, reachable_scheme, effective_port, same_endpoint, has_user, check_redirect,
  classify_location, loopback_name, is_loopback, sends_credential_in_clear,
}
use omnigent_go_sdk.Client.Redirects.{SafeHop, check_redirect-SafeHop}
use omnigent_go_sdk.Client.InClear.{is_ascii, FoldsAscii, check_redirect-sends_credential_in_clear}
use omnigent_go_sdk.Client.Uploads.{Downgrade, first_hop, classify_location-first_hop}
use omnigent_go_sdk.Client.Config.{
  Http, Config, ClientOption, with_bearer_token, set_header, credential, apply, then_apply,
  apply_all, initial_config, default_stream_idle_timeout,
}
use omnigent_go_sdk.Client.New.{
  Client, client_of, check_base, slashed, guarded, configured, new_parsed, new,
}
use omnigent_go_sdk.Client.New.Guarded.{GoodBase, new-GoodBase, new-sends_credential_in_clear}
use omnigent_go_sdk.Client.New.Timeouts.{Timed, new-Timed}
use omnigent_go_sdk.Client.New.Withheld.{with_user, new-with_user}

unfoldable url_at : (scheme port : Text) → Url
url_at scheme port = record {
  scheme = scheme;
  user = none;
  host = codes "h";
  hostname = codes "h";
  port = port;
  path = codes "/";
}

-- A parser that knows two base URLs with userinfo, and one without.
unfoldable toy_net : Net
unfolding url_at
toy_net = record {
  parse = λ s.
      if same s (codes "a")
      then inr (with_user (codes "p") (url_at (codes "https") []))
      else if same s (codes "b")
      then inr (with_user (codes "q") (url_at (codes "https") []))
      else inr (url_at (codes "https") []);
  url_text = λ u. u.path;
  resolve_reference = λ base next. next;
  equal_fold = same;
  to_lower = λ s. s;
  parse_ip = λ host. none;
}

unfoldable get : Url → HttpRequest
get u = record { method = codes "GET"; url = u }

abbrev tls : HttpRequest
tls = get (url_at (codes "https") [])

tls_followed : check_redirect toy_net tls tls [] ≡ none
unfolding check_redirect toy_net get url_at reachable_scheme same_endpoint effective_port has_user
    codes same
tls_followed = refl

check_redirect-SafeHop_example :
    (check_redirect toy_net tls tls [] ≡ none) ↔ SafeHop toy_net tls tls []
check_redirect-SafeHop_example = check_redirect-SafeHop toy_net tls tls []

lower_code : ℕ → ℕ
lower_code c = if ltb 64 c && ltb c 91 then c + 32 else c

ascii_lower : Text → Text
unfolding lower_code
ascii_lower [] = []
ascii_lower (c ∷ s) = lower_code c ∷ ascii_lower s

-- A resolver of names that folds the letters of ASCII.
unfoldable ascii_net : Net
unfolding toy_net
ascii_net = record toy_net {
  equal_fold = λ a b. same (ascii_lower a) (ascii_lower b);
  to_lower = ascii_lower;
}

ascii_net-FoldsAscii : FoldsAscii ascii_net
unfolding ascii_net toy_net
ascii_net-FoldsAscii = record {
  one_lower = λ a b _ _ e. (same_iff (ascii_lower a) (ascii_lower b)).0 e;
  one_address = λ a b _ _ _. refl;
}

-- A request in clear to this machine.
abbrev local : Text → HttpRequest
local name = record {
  method = codes "GET";
  url = record (url_at (codes "http") []) { host = name; hostname = name };
}

local_followed :
    check_redirect ascii_net (local (codes "localhost")) (local (codes "LOCALHOST")) [] ≡ none
unfolding check_redirect ascii_net toy_net url_at reachable_scheme same_endpoint effective_port
    has_user codes same ascii_lower lower_code
local_followed = refl

local_sealed : sends_credential_in_clear ascii_net (local (codes "LOCALHOST")).url ≡ false
unfolding sends_credential_in_clear is_loopback loopback_name ascii_net toy_net url_at codes same
    ascii_lower lower_code
local_sealed = refl

local_ascii : is_ascii (codes "localhost") ≡ true
unfolding codes
local_ascii = refl

upper_ascii : is_ascii (codes "LOCALHOST") ≡ true
unfolding codes
upper_ascii = refl

check_redirect-sends_credential_in_clear_example :
    sends_credential_in_clear ascii_net (local (codes "localhost")).url ≡ false
check_redirect-sends_credential_in_clear_example =
    check_redirect-sends_credential_in_clear ascii_net ascii_net-FoldsAscii
      (local (codes "localhost")) (local (codes "LOCALHOST")) [] upper_ascii local_ascii
      local_followed local_sealed

abbrev on_port : Text → Url
on_port scheme = url_at scheme (codes "8443")

downgrade_benign :
    classify_location toy_net (on_port (codes "https")) (on_port (codes "http"))
    ≡ redirect_not_followed
unfolding classify_location toy_net url_at reachable_scheme same_endpoint effective_port has_user
    codes same
downgrade_benign = refl

classify_location-first_hop_example :
    (first_hop (codes "POST") (on_port (codes "https")) (on_port (codes "http")) toy_net ≡ none)
    ⊎ Downgrade (on_port (codes "https")) (on_port (codes "http"))
classify_location-first_hop_example =
    classify_location-first_hop toy_net (codes "POST") (on_port (codes "https"))
      (on_port (codes "http")) downgrade_benign

abbrev toy_http : Http
toy_http = record { canonical = λ name. name; cookie_text = λ name value. name ++ value }

abbrev one_token : List ClientOption
one_token = with_bearer_token (codes "t") ∷ []

unfoldable token_config : Config
token_config = record {
  origin = [];
  http_client = none;
  header = (codes "Authorization", codes "Bearer " ++ codes "t") ∷ [];
  idle_timeout = default_stream_idle_timeout;
  unary_timeout = 0;
  transfer_timeout = 0;
  credentialed = true;
  allow_plaintext_credential = false;
}

abbrev token_client : Client
token_client = client_of toy_http (url_at (codes "https") []) token_config

token_built : new toy_net toy_http (codes "c") one_token ≡ inr token_client
unfolding new new_parsed configured check_base slashed guarded apply_all apply then_apply set_header
    credential initial_config token_config toy_net url_at insert has_user sends_credential_in_clear
    has_suffix has_prefix codes same
token_built = refl

new-GoodBase_example : GoodBase token_client.base_url
new-GoodBase_example = new-GoodBase toy_net toy_http (codes "c") one_token token_client token_built

new-sends_credential_in_clear_example :
    sends_credential_in_clear toy_net token_client.base_url ≡ false
new-sends_credential_in_clear_example =
    new-sends_credential_in_clear toy_net toy_http (codes "c") one_token token_client token_built
      refl refl

new-Timed_example : Timed one_token token_client
new-Timed_example = new-Timed toy_net toy_http (codes "c") one_token token_client token_built

a_parses : toy_net.parse (codes "a") ≡ inr (with_user (codes "p") (url_at (codes "https") []))
unfolding toy_net codes same
a_parses = refl

b_parses : toy_net.parse (codes "b") ≡ inr (with_user (codes "q") (url_at (codes "https") []))
unfolding toy_net codes same
b_parses = refl

a_named : is_empty (codes "a") ≡ false
unfolding codes
a_named = refl

b_named : is_empty (codes "b") ≡ false
unfolding codes
b_named = refl

new-with_user_example :
    new toy_net toy_http (codes "a") one_token ≡ new toy_net toy_http (codes "b") one_token
new-with_user_example =
    new-with_user toy_net toy_http one_token (codes "a") (codes "b") (url_at (codes "https") [])
      (codes "p") (codes "q") a_named b_named a_parses b_parses
