-- ===== src/Client/InClear.antt =====
-- client.go: a redirect that is followed, and the transport of a credential.
use omnigent_go_sdk.Prelude.{
  ◌≡◌, refl, ap, ◌∙◌, Bool, true, false, ◌&&◌, ◌||◌, List, [], ◌∷◌, Option, none, some, ltb, arith,
}
use omnigent_go_sdk.Prelude.Text.{Text, codes, same, same_iff, has_suffix}
use omnigent_go_sdk.Client.{
  Url, Net, HttpRequest, check_redirect, loopback_name, is_loopback, sends_credential_in_clear,
}
use omnigent_go_sdk.Client.Redirects.{hop_safe}

abbrev pub is_ascii : Text → Bool
is_ascii [] = true
is_ascii (c ∷ s) = ltb c 128 && is_ascii s

-- What packages strings and net say of names in ASCII: names that are equal under folding have one
-- lower case, and an address reads the same in either case of its digits.
pub record FoldsAscii (net : Net) : Type 0 where
  pub one_lower :
      (a b : Text)
      → is_ascii a ≡ true
      → is_ascii b ≡ true
      → net.equal_fold a b ≡ true
      → net.to_lower a ≡ net.to_lower b
  pub one_address :
      (a b : Text)
      → is_ascii a ≡ true
      → is_ascii b ≡ true
      → net.to_lower a ≡ net.to_lower b
      → net.parse_ip a ≡ net.parse_ip b

loopback_name-lower :
    (net : Net) (a b : Text) (ip : Option Bool)
    → net.to_lower a ≡ net.to_lower b
    → loopback_name net a ip ≡ loopback_name net b ip
unfolding loopback_name
loopback_name-lower net a b (some loopback) e = refl
loopback_name-lower net a b none e =
    ap (λ s. same s (codes "localhost") || has_suffix s (codes ".localhost")) e

is_loopback-fold :
    (net : Net)
    → FoldsAscii net
    → (a b : Url) → is_ascii a.hostname ≡ true
    → is_ascii b.hostname ≡ true
    → net.equal_fold a.hostname b.hostname ≡ true
    → is_loopback net a ≡ is_loopback net b
unfolding is_loopback
is_loopback-fold net folds a b ha hb e =
    let lower = folds.one_lower a.hostname b.hostname ha hb e in
    loopback_name-lower net a.hostname b.hostname (net.parse_ip a.hostname) lower
    ∙ ap (loopback_name net b.hostname) (folds.one_address a.hostname b.hostname ha hb lower)

-- A hop that is followed sends no credential in clear where the first request did not, where the host
-- names of both are ASCII, names in ASCII that are equal under folding have one lower case, and names
-- in ASCII of one lower case are read as one address.
pub check_redirect-sends_credential_in_clear :
    (net : Net)
    → FoldsAscii net
    → (req origin : HttpRequest) (later : List HttpRequest) → is_ascii origin.url.hostname ≡ true
    → is_ascii req.url.hostname ≡ true
    → check_redirect net req origin later ≡ none
    → sends_credential_in_clear net origin.url ≡ false
    → sends_credential_in_clear net req.url ≡ false
unfolding sends_credential_in_clear
check_redirect-sends_credential_in_clear net folds req origin later ascii next_ascii h sealed =
    let safe = hop_safe net req origin later h in
    ground (
      arith,
      sealed,
      safe.sealed,
      is_loopback-fold net folds origin.url req.url ascii next_ascii safe.same_host,
      same_iff origin.url.scheme (codes "https"),
      same_iff req.url.scheme (codes "https"),
    )
