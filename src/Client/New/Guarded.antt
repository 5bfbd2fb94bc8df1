-- ===== src/Client/New/Guarded.antt =====
-- client.go: the base URL of a client that `New` builds.
use omnigent_go_sdk.Prelude.{
  ◌≡◌, ap, ◌⊎◌, inl, inr, true, false, ◌||◌, List, ◌++◌, none, is_empty, any, arith, if_intro,
  Bool-cases,
}
use omnigent_go_sdk.Prelude.Text.{Text, codes, same, same_iff, has_prefix, has_suffix}
use omnigent_go_sdk.Client.{Url, Net, has_user, sends_credential_in_clear}
use mathlib.Core.List.{reverse-append}
use omnigent_go_sdk.Client.Redirects.{no_user_lem}
use omnigent_go_sdk.Client.Config.{Http, ClientOption, apply_all, initial_config}
use omnigent_go_sdk.Client.New.{Client, client_of, check_base, slashed, new}
use omnigent_go_sdk.Client.New.Built.{
  is_credential, is_insecure, apply_all-Flags, Flags-of, new-Built, of_built,
}

-- A base URL that names a server and nothing else.
pub record GoodBase (u : Url) : Type 0 where
  pub scheme : (u.scheme ≡ codes "http") ⊎ (u.scheme ≡ codes "https")
  pub host : is_empty u.host ≡ false
  pub user : u.user ≡ none
  pub slash : has_suffix u.path (codes "/") ≡ true

module _ (net : Net) (u : Url) where
  checked :
      check_base net u ≡ none
      → ((same u.scheme (codes "http") || same u.scheme (codes "https")) ≡ true)
        × (is_empty u.host ≡ false)
        × (has_user u ≡ false)
  unfolding check_base
  checked h = (ground (arith, h), ground (arith, h), ground (arith, h))

  scheme_of :
      (same u.scheme (codes "http") || same u.scheme (codes "https")) ≡ true
      → (u.scheme ≡ codes "http") ⊎ (u.scheme ≡ codes "https")
  scheme_of h = elim (Bool-cases (same u.scheme (codes "http"))) [
    | inl e ↦ inl ((same_iff u.scheme (codes "http")).0 e)
    | inr e ↦ inr ((same_iff u.scheme (codes "https")).0 (ground (arith, e, h)))
  ]

  suffixed : (p : Text) → has_suffix (p ++ codes "/") (codes "/") ≡ true
  unfolding has_suffix has_prefix codes
  suffixed p = ap (λ (s : Text). has_prefix s (codes "/")) (reverse-append p (codes "/"))

  slashed-GoodBase : check_base net u ≡ none → GoodBase (slashed u)
  unfolding slashed
  slashed-GoodBase h =
      let (scheme, host, user) = checked h in
      if_intro GoodBase (has_suffix u.path (codes "/"))
        (λ e. record {
          scheme = scheme_of scheme;
          host = host;
          user = no_user_lem u user;
          slash = e;
        })
        (λ _. record {
          scheme = scheme_of scheme;
          host = host;
          user = no_user_lem u user;
          slash = suffixed u.path;
        })

-- Where `New` succeeds, the base URL of the client has the scheme http or https, a host, no
-- userinfo, and a path that ends in a slash.
pub new-GoodBase :
    (net : Net) (http : Http) (base_url : Text) (opts : List ClientOption) (c : Client)
    → new net http base_url opts ≡ inr c
    → GoodBase c.base_url
unfolding client_of
new-GoodBase net http base_url opts c e =
    of_built (λ (c : Client). GoodBase c.base_url) net http opts
      (λ u cfg ok _ _. slashed-GoodBase net u ok) (new net http base_url opts) c
      (new-Built net http opts base_url) e

-- Where `New` succeeds with an option among its options that sends a credential, and without the one
-- that accepts plain transport, a credential that is sent to the base URL is not sent in clear: the
-- scheme is https or the host is loopback, in whichever order the options stand.
pub new-sends_credential_in_clear :
    (net : Net) (http : Http) (base_url : Text) (opts : List ClientOption) (c : Client)
    → new net http base_url opts ≡ inr c
    → any is_credential opts ≡ true
    → any is_insecure opts ≡ false
    → sends_credential_in_clear net c.base_url ≡ false
unfolding client_of initial_config
new-sends_credential_in_clear net http base_url opts c e sent plain =
    of_built (λ (c : Client). sends_credential_in_clear net c.base_url ≡ false) net http opts
      (λ u cfg ok applied sealed.
        let (ec, ea) =
          Flags-of initial_config (any is_credential opts) (any is_insecure opts)
            (apply_all http opts initial_config) cfg (apply_all-Flags http opts initial_config)
            applied in
        ground (arith, ec, ea, sent, plain, sealed))
      (new net http base_url opts) c (new-Built net http opts base_url) e
