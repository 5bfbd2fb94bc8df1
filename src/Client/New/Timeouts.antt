-- ===== src/Client/New/Timeouts.antt =====
-- client.go: the three HTTP clients of a Client.
use omnigent_go_sdk.Prelude.{
  inr_injective, ℕ, suc, zero, ◌≡◌, refl, subst, ap, ◌∙◌, ◌⊎◌, inl, inr, List, [], ◌∷◌, Option,
  none, some, if◌then◌else◌, is_empty, ltb, ◌==◌, arith, if_intro,
}
use omnigent_go_sdk.Prelude.Int.{ℤ, pos, negsuc}
use omnigent_go_sdk.Prelude.Text.{Text}
use omnigent_go_sdk.Errors.{Err}
use omnigent_go_sdk.Client.{Net}
use omnigent_go_sdk.Client.Config.{
  Http, Policy, unset_policy, package_policy, caller_policy, HttpClient, Config,
  default_unary_timeout, ClientOption, with_http_client, with_auth_header, with_bearer_token,
  with_session_cookie, with_insecure_credential_transport, with_internal_client_origin,
  with_user_agent, with_transfer_timeout, with_unary_timeout, with_stream_idle_timeout, set_header,
  credential, add_cookie, zero_or, apply, then_apply, apply_all, initial_config,
}
use omnigent_go_sdk.Client.New.{Client, client_of, unary_of, base_client, or_package, new}
use omnigent_go_sdk.Client.New.Built.{new-Built, of_built}

-- What an option asks for: a unary timeout, a client, and a transfer timeout.
abbrev pub timeout_after : ClientOption → ℕ → ℕ
timeout_after (with_unary_timeout (pos d)) t = if d == 0 then default_unary_timeout else d
timeout_after opt t = t

abbrev pub client_after : ClientOption → Option HttpClient → Option HttpClient
client_after (with_http_client (some client)) o = some client
client_after opt o = o

abbrev pub asked_timeout : ℕ → List ClientOption → ℕ
asked_timeout t [] = t
asked_timeout t (opt ∷ opts) = asked_timeout (timeout_after opt t) opts

abbrev pub transfer_after : ClientOption → ℕ → ℕ
transfer_after (with_transfer_timeout (pos d)) x = d
transfer_after opt x = x

abbrev pub asked_transfer : ℕ → List ClientOption → ℕ
asked_transfer x [] = x
asked_transfer x (opt ∷ opts) = asked_transfer (transfer_after opt x) opts

abbrev pub asked_client : Option HttpClient → List ClientOption → Option HttpClient
asked_client o [] = o
asked_client o (opt ∷ opts) = asked_client (client_after opt o) opts

-- An explicit timeout outranks a client's, and a client's the default.
abbrev pub chosen_timeout : ℕ → Option HttpClient → ℤ
chosen_timeout (suc t) o = pos (suc t)
chosen_timeout zero (some client) = client.timeout
chosen_timeout zero none = pos default_unary_timeout

-- The caller's policy where there is one.
abbrev pub chosen_policy : Option HttpClient → Policy
chosen_policy none = package_policy
chosen_policy (some client) = elim client.policy [
  | unset_policy ↦ package_policy
  | package_policy ↦ package_policy
  | caller_policy name ↦ caller_policy name
]

data Asked (t : ℕ) (o : Option HttpClient) (x : ℕ) : Err ⊎ Config → Type 0 where
  refused : (err : Err) → Asked t o x (inl err)
  asked :
      (cfg : Config)
      → cfg.unary_timeout ≡ t
      → cfg.http_client ≡ o
      → cfg.transfer_timeout ≡ x
      → Asked t o x (inr cfg)

apply-Asked :
    (http : Http) (opt : ClientOption) (cfg : Config)
    → Asked
        (timeout_after opt cfg.unary_timeout)
        (client_after opt cfg.http_client)
        (transfer_after opt cfg.transfer_timeout)
        (apply http opt cfg)
unfolding apply set_header credential add_cookie zero_or
apply-Asked http (with_http_client none) cfg = refused _
apply-Asked http (with_http_client (some client)) cfg = asked _ refl refl refl
apply-Asked http (with_auth_header name value) cfg =
    if_intro (Asked cfg.unary_timeout cfg.http_client cfg.transfer_timeout) (is_empty name)
      (λ _. refused _) (λ _. asked _ refl refl refl)
apply-Asked http (with_bearer_token token) cfg =
    if_intro (Asked cfg.unary_timeout cfg.http_client cfg.transfer_timeout) (is_empty token)
      (λ _. refused _) (λ _. asked _ refl refl refl)
apply-Asked http (with_session_cookie name value) cfg =
    if_intro (Asked cfg.unary_timeout cfg.http_client cfg.transfer_timeout) (is_empty name)
      (λ _. refused _) (λ _. asked _ refl refl refl)
apply-Asked http with_insecure_credential_transport cfg = asked _ refl refl refl
apply-Asked http (with_internal_client_origin origin) cfg =
    if_intro (Asked cfg.unary_timeout cfg.http_client cfg.transfer_timeout) (is_empty origin)
      (λ _. refused _) (λ _. asked _ refl refl refl)
apply-Asked http (with_user_agent agent) cfg = asked _ refl refl refl
apply-Asked http (with_transfer_timeout (negsuc n)) cfg = refused _
apply-Asked http (with_transfer_timeout (pos d)) cfg = asked _ refl refl refl
apply-Asked http (with_unary_timeout (negsuc n)) cfg = refused _
apply-Asked http (with_unary_timeout (pos d)) cfg = asked _ refl refl refl
apply-Asked http (with_stream_idle_timeout (negsuc n)) cfg = refused _
apply-Asked http (with_stream_idle_timeout (pos d)) cfg = asked _ refl refl refl

then_apply-Asked :
    (t : ℕ) (o : Option HttpClient) (x : ℕ) (t' : ℕ → ℕ)
    (o' : Option HttpClient → Option HttpClient) (x' : ℕ → ℕ) (f : Config → Err ⊎ Config)
    (r : Err ⊎ Config)
    → ((cfg : Config)
        → Asked (t' cfg.unary_timeout) (o' cfg.http_client) (x' cfg.transfer_timeout) (f cfg))
    → Asked t o x r
    → Asked (t' t) (o' o) (x' x) (then_apply f r)
unfolding then_apply
then_apply-Asked t o x t' o' x' f _ h (refused err) = refused err
then_apply-Asked t o x t' o' x' f _ h (asked cfg et eo ex) =
    subst (λ t. Asked (t' t) (o' o) (x' x) (f cfg)) et
      (subst (λ o. Asked (t' cfg.unary_timeout) (o' o) (x' x) (f cfg)) eo
        (subst (λ x. Asked (t' cfg.unary_timeout) (o' cfg.http_client) (x' x) (f cfg)) ex (h cfg)))

apply_all-Asked :
    (http : Http) (opts : List ClientOption) (cfg : Config)
    → Asked
        (asked_timeout cfg.unary_timeout opts)
        (asked_client cfg.http_client opts)
        (asked_transfer cfg.transfer_timeout opts)
        (apply_all http opts cfg)
unfolding apply_all
apply_all-Asked http [] cfg = asked cfg refl refl refl
apply_all-Asked http (opt ∷ opts) cfg =
    then_apply-Asked (timeout_after opt cfg.unary_timeout) (client_after opt cfg.http_client)
      (transfer_after opt cfg.transfer_timeout) (λ t. asked_timeout t opts)
      (λ o. asked_client o opts) (λ x. asked_transfer x opts) (apply_all http opts)
      (apply http opt cfg) (λ cfg'. apply_all-Asked http opts cfg') (apply-Asked http opt cfg)

Asked-of :
    (t : ℕ) (o : Option HttpClient) (x : ℕ) (r : Err ⊎ Config) (cfg : Config)
    → Asked t o x r
    → r ≡ inr cfg
    → (cfg.unary_timeout ≡ t) × (cfg.http_client ≡ o) × (cfg.transfer_timeout ≡ x)
Asked-of t o x _ cfg (refused err) e = (cc, cc, cc)
Asked-of t o x _ cfg (asked cfg' et eo ex) e =
    subst (λ (z : Config). (z.unary_timeout ≡ t) × (z.http_client ≡ o) × (z.transfer_timeout ≡ x))
      (inr_injective e) (et, eo, ex)

-- The three HTTP clients of a Client.
pub record Timed (opts : List ClientOption) (c : Client) : Type 0 where
  pub unary_timeout :
      c.unary.timeout ≡ chosen_timeout (asked_timeout 0 opts) (asked_client none opts)
  pub stream_timeout : c.stream.timeout ≡ pos 0
  pub transfer_timeout : c.transfer.timeout ≡ pos (asked_transfer 0 opts)
  pub unary_policy : c.unary.policy ≡ chosen_policy (asked_client none opts)
  pub stream_policy : c.stream.policy ≡ c.unary.policy
  pub transfer_policy : c.transfer.policy ≡ c.unary.policy
  pub one_transport :
      (c.stream.transport ≡ c.unary.transport) × (c.transfer.transport ≡ c.unary.transport)

timeout-chosen :
    (t : ℕ) (o : Option HttpClient)
    → (if ltb 0 t then pos t else (base_client t o).timeout) ≡ chosen_timeout t o
unfolding base_client zero_or
timeout-chosen zero none = refl
timeout-chosen zero (some client) = refl
timeout-chosen (suc t) o = ground arith

policy-chosen :
    (t : ℕ) (o : Option HttpClient) → or_package (base_client t o).policy ≡ chosen_policy o
unfolding base_client or_package
policy-chosen t none = refl
policy-chosen t (some client) = kept client.policy
  where
    kept :
        (p : Policy)
        → or_package p ≡ (elim p [
          | unset_policy ↦ package_policy
          | package_policy ↦ package_policy
          | caller_policy name ↦ caller_policy name
        ])
    kept unset_policy = refl
    kept package_policy = refl
    kept (caller_policy name) = refl

unary-chosen :
    (cfg : Config) (t : ℕ) (o : Option HttpClient)
    → cfg.unary_timeout ≡ t
    → cfg.http_client ≡ o
    → ((unary_of cfg).timeout ≡ chosen_timeout t o) × ((unary_of cfg).policy ≡ chosen_policy o)
unfolding unary_of
unary-chosen cfg t o et eo = (
  timeout-chosen cfg.unary_timeout cfg.http_client
      ∙ ap (λ t. chosen_timeout t cfg.http_client) et
      ∙ ap (chosen_timeout t) eo,
  policy-chosen cfg.unary_timeout cfg.http_client ∙ ap chosen_policy eo,
)

-- Where `New` succeeds: a unary call is bounded by the last WithUnaryTimeout, else by the timeout of
-- the last WithHTTPClient, else by 90 seconds, in whichever order they stand; a stream by no timeout;
-- a transfer by the last WithTransferTimeout, and by none where there is none or it is zero; and all three clients have one transport and one redirect policy, which is the caller's where it
-- is set and the package's otherwise.
pub new-Timed :
    (net : Net) (http : Http) (base_url : Text) (opts : List ClientOption) (c : Client)
    → new net http base_url opts ≡ inr c
    → Timed opts c
unfolding client_of initial_config
new-Timed net http base_url opts c e =
    of_built (Timed opts) net http opts
      (λ u cfg _ applied _.
        let (et, eo, ex) =
          Asked-of (asked_timeout 0 opts) (asked_client none opts) (asked_transfer 0 opts)
            (apply_all http opts initial_config) cfg (apply_all-Asked http opts initial_config)
            applied in
        let (timeout, policy) =
          unary-chosen cfg (asked_timeout 0 opts) (asked_client none opts) et eo in
        record {
          unary_timeout = timeout;
          stream_timeout = refl;
          transfer_timeout = ap pos ex;
          unary_policy = policy;
          stream_policy = refl;
          transfer_policy = refl;
          one_transport = (refl, refl);
        })
      (new net http base_url opts) c (new-Built net http opts base_url) e
