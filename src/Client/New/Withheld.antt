-- ===== src/Client/New/Withheld.antt =====
-- client.go: what `New` tells of a password in a base URL that parses.
use omnigent_go_sdk.Prelude.{
  ◌≡◌, refl, sym, ap, ◌∙◌, ◌⊎◌, inr, Bool, false, not, ◌&&◌, List, Option, some, if◌then◌else◌,
  is_empty, if_intro,
}
use omnigent_go_sdk.Prelude.Text.{Text, codes, same}
use omnigent_go_sdk.Errors.{Err}
use omnigent_go_sdk.Client.{Url, Net, has_user, redact_url}
use omnigent_go_sdk.Client.Config.{Http, ClientOption}
use omnigent_go_sdk.Client.New.{check_base, configured, new_parsed, new, default_base_url}

-- A URL with userinfo.
abbrev pub with_user : Text → Url → Url
with_user name u = record u { user = some name }

module _ (net : Net) (http : Http) (opts : List ClientOption) (u : Url) (a b : Text) where
  checks_alike : check_base net (with_user a u) ≡ check_base net (with_user b u)
  unfolding check_base has_user redact_url
  checks_alike = refl

  -- The options are not looked at.
  early :
      configured net http opts (with_user a u) (check_base net (with_user a u))
      ≡ configured net http opts (with_user b u) (check_base net (with_user a u))
  unfolding configured check_base has_user
  early =
      if_intro
        (λ (o : Option Err).
          configured net http opts (with_user a u) o ≡ configured net http opts (with_user b u) o)
        (not (same u.scheme (codes "http")) && not (same u.scheme (codes "https"))) (λ _. refl)
        (λ _.
          if_intro
            (λ (o : Option Err).
              configured net http opts (with_user a u) o
              ≡ configured net http opts (with_user b u) o)
            (is_empty u.host) (λ _. refl) (λ _. refl))

  parsed_alike :
      new_parsed net http opts (inr (with_user a u))
      ≡ new_parsed net http opts (inr (with_user b u))
  unfolding new_parsed
  parsed_alike = early ∙ ap (configured net http opts (with_user b u)) checks_alike

parsed :
    (net : Net) (http : Http) (opts : List ClientOption) (s : Text) (r : Text ⊎ Url)
    → is_empty s ≡ false
    → net.parse s ≡ r
    → new net http s opts ≡ new_parsed net http opts r
unfolding new
parsed net http opts s r full e =
    ap (λ (b : Bool). new_parsed net http opts (net.parse (if b then default_base_url else s))) full
    ∙ ap (new_parsed net http opts) e

-- Two base URLs that both parse, and whose URLs differ in nothing but the userinfo that they carry, are
-- answered alike by `New`.
pub new-with_user :
    (net : Net) (http : Http) (opts : List ClientOption) (s t : Text) (u : Url) (a b : Text)
    → is_empty s ≡ false
    → is_empty t ≡ false
    → net.parse s ≡ inr (with_user a u)
    → net.parse t ≡ inr (with_user b u)
    → new net http s opts ≡ new net http t opts
new-with_user net http opts s t u a b hs ht es et =
    parsed net http opts s _ hs es
    ∙ parsed_alike net http opts u a b
    ∙ sym (parsed net http opts t _ ht et)
