-- ===== src/Client/New/Built.antt =====
-- client.go: how a client comes to be built, and the flags that the options set.
use omnigent_go_sdk.Prelude.{
  inr_injective, ◌≡◌, refl, subst, ◌⊎◌, inl, inr, Bool, true, false, not, ◌||◌, ◌&&◌, List, [], ◌∷◌,
  Option, none, some, is_empty, any, arith, if_intro,
}
use omnigent_go_sdk.Prelude.Int.{pos, negsuc}
use omnigent_go_sdk.Prelude.Text.{Text}
use omnigent_go_sdk.Errors.{Err}
use omnigent_go_sdk.Client.{Url, Net, sends_credential_in_clear}
use omnigent_go_sdk.Client.Config.{
  Http, Config, ClientOption, with_http_client, with_auth_header, with_bearer_token,
  with_session_cookie, with_insecure_credential_transport, with_internal_client_origin,
  with_user_agent, with_transfer_timeout, with_unary_timeout, with_stream_idle_timeout, set_header,
  credential, add_cookie, apply, then_apply, apply_all, initial_config,
}
use omnigent_go_sdk.Client.New.{
  Client, client_of, check_base, slashed, guarded, configured, new_parsed, new,
}

-- The options that send a credential.
abbrev pub is_credential : ClientOption → Bool
is_credential (with_auth_header name value) = true
is_credential (with_session_cookie name value) = true
is_credential (with_bearer_token token) = true
is_credential opt = false

abbrev pub is_insecure : ClientOption → Bool
is_insecure with_insecure_credential_transport = true
is_insecure opt = false

-- What a step on a configuration does to the two flags.
pub data Flags (cfg : Config) (c a : Bool) : Err ⊎ Config → Type 0 where
  refused : (err : Err) → Flags cfg c a (inl err)
  flags :
      (cfg' : Config)
      → cfg'.credentialed ≡ (cfg.credentialed || c)
      → cfg'.allow_plaintext_credential ≡ (cfg.allow_plaintext_credential || a)
      → Flags cfg c a (inr cfg')

apply-Flags :
    (http : Http) (opt : ClientOption) (cfg : Config)
    → Flags cfg (is_credential opt) (is_insecure opt) (apply http opt cfg)
unfolding apply set_header credential add_cookie
apply-Flags http (with_http_client none) cfg = refused _
apply-Flags http (with_http_client (some client)) cfg = flags _ (ground arith) (ground arith)
apply-Flags http (with_auth_header name value) cfg =
    if_intro (Flags cfg true false) (is_empty name) (λ _. refused _)
      (λ _. flags _ (ground arith) (ground arith))
apply-Flags http (with_bearer_token token) cfg =
    if_intro (Flags cfg true false) (is_empty token) (λ _. refused _)
      (λ _. flags _ (ground arith) (ground arith))
apply-Flags http (with_session_cookie name value) cfg =
    if_intro (Flags cfg true false) (is_empty name) (λ _. refused _)
      (λ _. flags _ (ground arith) (ground arith))
apply-Flags http with_insecure_credential_transport cfg = flags _ (ground arith) (ground arith)
apply-Flags http (with_internal_client_origin origin) cfg =
    if_intro (Flags cfg false false) (is_empty origin) (λ _. refused _)
      (λ _. flags _ (ground arith) (ground arith))
apply-Flags http (with_user_agent agent) cfg = flags _ (ground arith) (ground arith)
apply-Flags http (with_transfer_timeout (negsuc n)) cfg = refused _
apply-Flags http (with_transfer_timeout (pos d)) cfg = flags _ (ground arith) (ground arith)
apply-Flags http (with_unary_timeout (negsuc n)) cfg = refused _
apply-Flags http (with_unary_timeout (pos d)) cfg = flags _ (ground arith) (ground arith)
apply-Flags http (with_stream_idle_timeout (negsuc n)) cfg = refused _
apply-Flags http (with_stream_idle_timeout (pos d)) cfg = flags _ (ground arith) (ground arith)

compose :
    (cfg : Config) (c1 a1 c2 a2 : Bool) (f : Config → Err ⊎ Config) (r : Err ⊎ Config)
    → ((cfg' : Config) → Flags cfg' c2 a2 (f cfg'))
    → Flags cfg c1 a1 r
    → Flags cfg (c1 || c2) (a1 || a2) (then_apply f r)
unfolding then_apply
compose cfg c1 a1 c2 a2 f _ h (refused err) = refused err
compose cfg c1 a1 c2 a2 f _ h (flags cfg' ec ea) = widen (f cfg') (h cfg')
  where
    widen : (r : Err ⊎ Config) → Flags cfg' c2 a2 r → Flags cfg (c1 || c2) (a1 || a2) r
    widen _ (refused err) = refused err
    widen _ (flags cfg2 fc fa) = flags cfg2 (ground (arith, ec, fc)) (ground (arith, ea, fa))

pub apply_all-Flags :
    (http : Http) (opts : List ClientOption) (cfg : Config)
    → Flags cfg (any is_credential opts) (any is_insecure opts) (apply_all http opts cfg)
unfolding apply_all
apply_all-Flags http [] cfg = flags cfg (ground arith) (ground arith)
apply_all-Flags http (opt ∷ opts) cfg =
    compose cfg (is_credential opt) (is_insecure opt) (any is_credential opts)
      (any is_insecure opts) (apply_all http opts) (apply http opt cfg)
      (λ cfg'. apply_all-Flags http opts cfg') (apply-Flags http opt cfg)

-- What `New` returns.
pub data Built (net : Net) (http : Http) (opts : List ClientOption) : Err ⊎ Client → Type 0 where
  not_built : (err : Err) → Built net http opts (inl err)
  built :
      (u : Url) (cfg : Config)
      → check_base net u ≡ none
      → apply_all http opts initial_config ≡ inr cfg
      → (cfg.credentialed
          && not cfg.allow_plaintext_credential
          && sends_credential_in_clear net (slashed u))
        ≡ false
      → Built net http opts (inr (client_of http (slashed u) cfg))

module _ (net : Net) (http : Http) (opts : List ClientOption) where
  guarded-Built :
      (u : Url) (r : Err ⊎ Config)
      → check_base net u ≡ none
      → apply_all http opts initial_config ≡ r
      → Built net http opts (guarded net http (slashed u) r)
  unfolding guarded
  guarded-Built u (inl err) ok e = not_built err
  guarded-Built u (inr cfg) ok e =
      if_intro (Built net http opts)
        (cfg.credentialed
          && not cfg.allow_plaintext_credential
          && sends_credential_in_clear net (slashed u))
        (λ _. not_built _) (λ sealed. built u cfg ok e sealed)

  configured-Built :
      (u : Url) (o : Option Err)
      → check_base net u ≡ o
      → Built net http opts (configured net http opts u o)
  unfolding configured
  configured-Built u (some err) e = not_built err
  configured-Built u none e = guarded-Built u (apply_all http opts initial_config) e refl

  parsed-Built : (r : Text ⊎ Url) → Built net http opts (new_parsed net http opts r)
  unfolding new_parsed
  parsed-Built (inl reason) = not_built _
  parsed-Built (inr u) = configured-Built u (check_base net u) refl

  pub new-Built : (base_url : Text) → Built net http opts (new net http base_url opts)
  unfolding new
  new-Built base_url = parsed-Built (net.parse _)

-- A property of the clients that are built.
pub of_built {ℓ} :
    (P : Client → Type ℓ) (net : Net) (http : Http) (opts : List ClientOption)
    → ((u : Url) (cfg : Config)
        → check_base net u ≡ none
        → apply_all http opts initial_config ≡ inr cfg
        → (cfg.credentialed
            && not cfg.allow_plaintext_credential
            && sends_credential_in_clear net (slashed u))
          ≡ false
        → P (client_of http (slashed u) cfg))
    → (r : Err ⊎ Client) (c : Client) → Built net http opts r
    → r ≡ inr c
    → P c
of_built P net http opts h _ c (not_built err) e = cc
of_built P net http opts h _ c (built u cfg ok applied sealed) e =
    subst P (inr_injective e) (h u cfg ok applied sealed)

pub Flags-of :
    (cfg : Config) (c a : Bool) (r : Err ⊎ Config) (cfg' : Config)
    → Flags cfg c a r
    → r ≡ inr cfg'
    → (cfg'.credentialed ≡ (cfg.credentialed || c))
      × (cfg'.allow_plaintext_credential ≡ (cfg.allow_plaintext_credential || a))
Flags-of cfg c a _ cfg' (refused err) e = (cc, cc)
Flags-of cfg c a _ cfg' (flags cfg2 ec ea) e =
    subst
      (λ (z : Config).
        (z.credentialed ≡ (cfg.credentialed || c))
        × (z.allow_plaintext_credential ≡ (cfg.allow_plaintext_credential || a)))
      (inr_injective e) (ec, ea)
