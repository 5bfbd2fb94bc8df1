-- ===== src/Client/Uploads.antt =====
-- client.go: the redirect of an upload, which is not followed, against the policy for those that are.
use omnigent_go_sdk.Prelude.{
  ◌≡◌, ap, ◌⊎◌, inl, inr, Bool, true, false, not, ◌&&◌, [], Option, none, arith, Bool-cases,
}
use omnigent_go_sdk.Prelude.Text.{Text, codes, same, same_iff, same_refl}
use omnigent_go_sdk.Errors.{Err, unsafe_redirect, redirect_not_followed}
use omnigent_go_sdk.Client.{
  Url, Net, reachable_scheme, effective_port, same_endpoint, has_user, check_redirect,
  classify_location,
}

-- From https to another scheme on one port.
pub record Downgrade (origin next : Url) : Type 0 where
  pub from_https : origin.scheme ≡ codes "https"
  pub not_https : same next.scheme (codes "https") ≡ false
  pub on_port : same (effective_port origin) (effective_port next) ≡ true

abbrev pub first_hop : (method : Text) → (origin next : Url) → Net → Option Err
first_hop method origin next net =
    check_redirect net (record { method = method; url = next })
      (record { method = method; url = origin }) []

is_unsafe : Err → Bool
is_unsafe (unsafe_redirect message) = true
is_unsafe err = false

module _ (net : Net) (method : Text) (origin next : Url) where
  benign :
      classify_location net origin next ≡ redirect_not_followed
      → (reachable_scheme next.scheme ≡ true)
        × (same_endpoint net origin next ≡ true)
        × (has_user next ≡ false)
  unfolding classify_location is_unsafe
  benign h = let e = ap is_unsafe h in (ground (arith, e), ground (arith, e), ground (arith, e))

  not_refused :
      reachable_scheme next.scheme ≡ true
      → same_endpoint net origin next ≡ true
      → has_user next ≡ false
      → (same origin.scheme (codes "https") && not (same next.scheme (codes "https"))) ≡ false
      → first_hop method origin next net ≡ none
  unfolding check_redirect
  not_refused h1 h2 h3 h4 = ground (arith, h1, h2, h3, h4, same_refl method)

  one_port :
      same_endpoint net origin next ≡ true
      → same next.scheme (codes "https") ≡ false
      → same (effective_port origin) (effective_port next) ≡ true
  unfolding same_endpoint
  one_port h e = ground (arith, h, e)

  -- An upload's redirect that is reported as one that was merely not followed is one that the policy
  -- would let another request follow, or else it leads from https to another scheme on the same
  -- port.
  pub classify_location-first_hop :
      classify_location net origin next ≡ redirect_not_followed
      → (first_hop method origin next net ≡ none) ⊎ Downgrade origin next
  classify_location-first_hop h =
      let (h1, h2, h3) = benign h in
      elim (Bool-cases
        (same origin.scheme (codes "https") && not (same next.scheme (codes "https")))) [
          | inr e ↦ inl (not_refused h1 h2 h3 e)
          | inl e ↦ inr (record {
            from_https = (same_iff origin.scheme (codes "https")).0 (ground (arith, e));
            not_https = ground (arith, e);
            on_port = one_port h2 (ground (arith, e));
          })
        ]
