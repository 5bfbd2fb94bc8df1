-- ===== src/Tool/Listed.antt =====
-- tool.go: the names that a registry lists.
use omnigent_go_sdk.Prelude.{
  ◌≡◌, refl, ◌∙◌, Bool, true, false, ◌||◌, List, [], ◌∷◌, Option, none, some, if_intro, arith,
}
use omnigent_go_sdk.Prelude.Text.{Text, same}
use omnigent_go_sdk.Prelude.Maps.{TextMap, lookup, member}
use omnigent_go_sdk.Tool.{ToolRegistry, text_before, place, sorted_keys, names, lookup_tool}

-- No text stands before one that comes first in the order.
abbrev pub Sorted : List Text → Type 0
Sorted [] = Unit
Sorted (k ∷ []) = Unit
Sorted (k ∷ j ∷ js) = (text_before j k ≡ false) × Sorted (j ∷ js)

abbrev pub found {ℓ} : {A : Type ℓ} → Option A → Bool
found none = false
found (some _) = true

text_before-asym : (s t : Text) → text_before s t ≡ true → text_before t s ≡ false
unfolding text_before
text_before-asym [] [] h = cc
text_before-asym [] (c ∷ t) h = refl
text_before-asym (a ∷ s) [] h = cc
text_before-asym (a ∷ s) (c ∷ t) h = ground (arith, h, text_before-asym s t)

place-Sorted : (k : Text) (js : List Text) → Sorted js → Sorted (place k js)
unfolding place
place-Sorted k [] h = tt
place-Sorted k (j ∷ []) h =
    if_intro Sorted (text_before j k) (λ e. (text_before-asym j k e, tt)) (λ e. (e, tt))
place-Sorted k (j ∷ i ∷ js) h =
    let rest = place-Sorted k (i ∷ js) h.1 in
    if_intro Sorted (text_before j k)
      (λ e.
        if_intro (λ (l : List Text). Sorted l → Sorted (j ∷ l)) (text_before i k) (λ _ r. (h.0, r))
          (λ _ r. (text_before-asym j k e, r)) rest)
      (λ e. (e, h))

member-place : (n k : Text) (js : List Text) → member n (place k js) ≡ (same k n || member n js)
unfolding place member
member-place n k [] = refl
member-place n k (j ∷ js) = ground (arith, member-place n k js)

module _ {ℓ} {V : Type ℓ} where
  sorted_keys-Sorted : (m : TextMap V) → Sorted (sorted_keys m)
  unfolding sorted_keys
  sorted_keys-Sorted [] = tt
  sorted_keys-Sorted ((k, v) ∷ m) = place-Sorted k (sorted_keys m) (sorted_keys-Sorted m)

  member-sorted_keys : (n : Text) (m : TextMap V) → member n (sorted_keys m) ≡ found (lookup n m)
  unfolding sorted_keys lookup member
  member-sorted_keys n [] = refl
  member-sorted_keys n ((k, v) ∷ m) =
      member-place n k (sorted_keys m) ∙ ground (arith, member-sorted_keys n m)

-- The names that a registry lists, nil or not, are sorted, and a name is listed exactly when a tool
-- is found under it.
pub listed_names :
    (r : Option ToolRegistry)
    → Sorted (names r) × ((n : Text) → member n (names r) ≡ found (lookup_tool r n))
unfolding names lookup_tool member
listed_names none = (tt, λ n. refl)
listed_names (some r) = (sorted_keys-Sorted r.tools, λ n. member-sorted_keys n r.tools)
