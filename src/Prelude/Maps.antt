-- ===== src/Prelude/Maps.antt =====
-- Go maps keyed by strings, as association lists with one entry for a key. No modelled function
-- depends on the order of the entries.
use Prim.Native.Nat.{◌+◌}
use mathlib.Core.Path.{◌≡◌, refl}
use mathlib.Core.Bool.{Bool, false, ◌||◌}
use mathlib.Core.Option.{Option, none, some}
use mathlib.Core.List.{List, [], ◌∷◌}
use native.Mathlib.Omega.{arith}
use omnigent_go_sdk.Prelude.Tests.{if◌then◌else◌}
use omnigent_go_sdk.Prelude.Lists.{length}
use omnigent_go_sdk.Prelude.Text.{Text, same, same_iff}

abbrev pub TextMap {ℓ} : Type ℓ → Type ℓ
TextMap V = List (Text × V)

module _ {ℓ} {V : Type ℓ} where
  unfoldable pub lookup : Text → TextMap V → Option V
  lookup k [] = none
  lookup k ((j, v) ∷ m) = if same j k then some v else lookup k m

  -- m[k] = v
  unfoldable pub insert : Text → V → TextMap V → TextMap V
  insert k v [] = (k, v) ∷ []
  insert k v ((j, w) ∷ m) = if same j k then (k, v) ∷ m else (j, w) ∷ insert k v m

  -- delete(m, k)
  unfoldable pub erase : Text → TextMap V → TextMap V
  erase k [] = []
  erase k ((j, w) ∷ m) = let rest = erase k m in if same j k then rest else (j, w) ∷ rest

  pub lookup-insert :
      (k j : Text) (v : V) (m : TextMap V)
      → lookup j (insert k v m) ≡ (if same k j then some v else lookup j m)
  unfolding lookup insert
  lookup-insert k j v [] = refl
  lookup-insert k j v ((i, w) ∷ m) =
      ground (arith, same_iff k j, same_iff i k, same_iff i j, lookup-insert k j v m)

  pub lookup-erase :
      (k j : Text) (m : TextMap V) → lookup j (erase k m) ≡ (if same k j then none else lookup j m)
  unfolding lookup erase
  lookup-erase k j [] = ground arith
  lookup-erase k j ((i, w) ∷ m) =
      ground (arith, lookup-erase k j m, same_iff i k, same_iff i j, same_iff k j)

-- A map to booleans that is only ever set to true: the set of its keys.
abbrev pub TextSet : Type 0
TextSet = List Text

unfoldable pub member : Text → TextSet → Bool
member k [] = false
member k (j ∷ s) = same j k || member k s

-- s[k] = true
unfoldable pub add : Text → TextSet → TextSet
add k s = if member k s then s else k ∷ s

member_same : (k j : Text) (s : TextSet) → k ≡ j → member k s ≡ member j s
member_same k j s e = cc

pub member-add : (k j : Text) (s : TextSet) → member j (add k s) ≡ (same k j || member j s)
unfolding member add
member-add k j s = ground (arith, member_same k j s, same_iff k j)

pub length-add : (k : Text) (s : TextSet) → member k s ≡ false → length (add k s) ≡ length s + 1
unfolding add
length-add k s h = ground arith
