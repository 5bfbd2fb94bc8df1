-- ===== src/Client/Redirects.antt =====
-- client.go: what a redirect that is followed keeps.
use omnigent_go_sdk.Prelude.{
  ◌≤◌, ◌≡◌, ◌↔◌, refl, ap, ◌⊎◌, inl, inr, Bool, true, false, not, ◌&&◌, List, ◌∷◌, Option, none,
  some, ltb, length, arith, Bool-cases, true≢false,
}
use omnigent_go_sdk.Prelude.Text.{Text, codes, same, same_iff}
use omnigent_go_sdk.Client.{
  Url, Net, HttpRequest, reachable_scheme, effective_port, same_endpoint, has_user, max_redirects,
  check_redirect,
}

-- The ports are the same, or they are the default ports of an upgrade to https.
pub data SamePort (origin next : Url) : Type 0 where
  kept_port : effective_port origin ≡ effective_port next → SamePort origin next
  upgraded :
      origin.scheme ≡ codes "http"
      → next.scheme ≡ codes "https"
      → effective_port origin ≡ codes "80"
      → effective_port next ≡ codes "443"
      → SamePort origin next

-- A hop that takes nothing elsewhere.
pub record SafeHop (net : Net) (req origin : HttpRequest) (later : List HttpRequest) : Type 0 where
  pub few : length (origin ∷ later) ≤ max_redirects
  pub scheme : (req.url.scheme ≡ codes "http") ⊎ (req.url.scheme ≡ codes "https")
  pub same_host : net.equal_fold origin.url.hostname req.url.hostname ≡ true
  pub same_port : SamePort origin.url req.url
  pub sealed : (same origin.url.scheme (codes "https") ≡ false) ⊎ (req.url.scheme ≡ codes "https")
  pub no_user : req.url.user ≡ none
  pub same_method : req.method ≡ origin.method

reachable_lem : (s : Text) → reachable_scheme s ≡ true → (s ≡ codes "http") ⊎ (s ≡ codes "https")
unfolding reachable_scheme
reachable_lem s h = elim (Bool-cases (same s (codes "http"))) [
  | inl e ↦ inl ((same_iff s (codes "http")).0 e)
  | inr e ↦ inr ((same_iff s (codes "https")).0 (ground (arith, e, h)))
]

endpoint_lem :
    (net : Net) (origin next : Url)
    → same_endpoint net origin next ≡ true
    → (net.equal_fold origin.hostname next.hostname ≡ true) × SamePort origin next
unfolding same_endpoint
endpoint_lem net origin next h = (
  ground (arith, h),
  elim (Bool-cases (same (effective_port origin) (effective_port next))) [
    | inl e ↦ kept_port ((same_iff (effective_port origin) (effective_port next)).0 e)
    | inr e ↦
        upgraded ((same_iff origin.scheme (codes "http")).0 (ground (arith, e, h)))
          ((same_iff next.scheme (codes "https")).0 (ground (arith, e, h)))
          ((same_iff (effective_port origin) (codes "80")).0 (ground (arith, e, h)))
          ((same_iff (effective_port next) (codes "443")).0 (ground (arith, e, h)))
  ],
)

none_of : (user : Option Text) → (elim user [ none ↦ false | some _ ↦ true ]) ≡ false → user ≡ none
none_of none h = refl
none_of (some name) h = absurd (true≢false h)

pub no_user_lem : (u : Url) → has_user u ≡ false → u.user ≡ none
unfolding has_user
no_user_lem u h = none_of u.user h

module _ (net : Net) (req origin : HttpRequest) (later : List HttpRequest) where
  followed :
      check_redirect net req origin later ≡ none
      → (ltb max_redirects (length (origin ∷ later)) ≡ false)
        × (reachable_scheme req.url.scheme ≡ true)
        × (same_endpoint net origin.url req.url ≡ true)
        × ((same origin.url.scheme (codes "https") && not (same req.url.scheme (codes "https")))
            ≡ false)
        × (has_user req.url ≡ false)
        × (same req.method origin.method ≡ true)
  unfolding check_redirect
  followed h = (
    ground (arith, h),
    ground (arith, h),
    ground (arith, h),
    ground (arith, h),
    ground (arith, h),
    ground (arith, h),
  )

  sealed_lem :
      (https : Bool)
      → (https && not (same req.url.scheme (codes "https"))) ≡ false
      → (https ≡ false) ⊎ (req.url.scheme ≡ codes "https")
  sealed_lem false h = inl refl
  sealed_lem true h = inr ((same_iff req.url.scheme (codes "https")).0 (ground (arith, h)))

  pub hop_safe : check_redirect net req origin later ≡ none → SafeHop net req origin later
  hop_safe h =
      let (few, scheme, endpoint, sealed, no_user, method) = followed h in
      let (same_host, same_port) = endpoint_lem net origin.url req.url endpoint in
      record {
        few = ground (arith, few);
        scheme = reachable_lem req.url.scheme scheme;
        same_host = same_host;
        same_port = same_port;
        sealed = sealed_lem (same origin.url.scheme (codes "https")) sealed;
        no_user = no_user_lem req.url no_user;
        same_method = (same_iff req.method origin.method).0 method;
      }

  safe_scheme :
      (req.url.scheme ≡ codes "http") ⊎ (req.url.scheme ≡ codes "https")
      → reachable_scheme req.url.scheme ≡ true
  unfolding reachable_scheme
  safe_scheme (inl e) = ground (arith, e, same_iff req.url.scheme (codes "http"))
  safe_scheme (inr e) = ground (arith, e, same_iff req.url.scheme (codes "https"))

  safe_endpoint :
      net.equal_fold origin.url.hostname req.url.hostname ≡ true
      → SamePort origin.url req.url
      → same_endpoint net origin.url req.url ≡ true
  unfolding same_endpoint
  safe_endpoint h (kept_port e) =
      ground (arith, h, e, same_iff (effective_port origin.url) (effective_port req.url))
  safe_endpoint h (upgraded e1 e2 e3 e4) = ground (
    arith,
    h,
    e1,
    e2,
    e3,
    e4,
    same_iff origin.url.scheme (codes "http"),
    same_iff req.url.scheme (codes "https"),
    same_iff (effective_port origin.url) (codes "80"),
    same_iff (effective_port req.url) (codes "443"),
  )

  safe_user : req.url.user ≡ none → has_user req.url ≡ false
  unfolding has_user
  safe_user e = ap (λ (user : Option Text). elim user [ none ↦ false | some _ ↦ true ]) e

  safe_hop : SafeHop net req origin later → check_redirect net req origin later ≡ none
  unfolding check_redirect
  safe_hop s = ground (
    arith,
    s.few,
    safe_scheme s.scheme,
    safe_endpoint s.same_host s.same_port,
    s.sealed,
    safe_user s.no_user,
    s.same_method,
    same_iff origin.url.scheme (codes "https"),
    same_iff req.url.scheme (codes "https"),
    same_iff req.method origin.method,
  )

-- The policy follows a redirect exactly where it is one of at most ten, over http or https, to the
-- same host name and port (or from port 80 to 443 with an upgrade to https), never from https to
-- http, with no userinfo in its location and with the method unchanged.
pub check_redirect-SafeHop :
    (net : Net) (req origin : HttpRequest) (later : List HttpRequest)
    → (check_redirect net req origin later ≡ none) ↔ SafeHop net req origin later
check_redirect-SafeHop net req origin later =
    (hop_safe net req origin later, safe_hop net req origin later)
