-- ===== src/Prelude/Lists.antt =====
-- Lists measured by native numbers, and predicates on their items by recursion.
use Prim.Native.Nat.{ℕ, suc, ◌+◌}
use mathlib.Core.Path.{◌≡◌, refl}
use mathlib.Core.Logic.{◌⊎◌, inl, inr}
use mathlib.Core.Bool.{Bool, true, false, ◌||◌}
use mathlib.Core.List.{List, [], ◌∷◌, ◌++◌}
use native.Mathlib.Omega.{arith}

module _ {ℓ} {A : Type ℓ} where
  abbrev pub length : List A → ℕ
  length [] = 0
  length (x ∷ xs) = suc (length xs)

  pub length-append : (xs ys : List A) → length (xs ++ ys) ≡ length xs + length ys
  length-append [] ys = omega arith
  length-append (x ∷ xs) ys = omega (arith, length-append xs ys)

  abbrev pub is_empty : List A → Bool
  is_empty [] = true
  is_empty (x ∷ xs) = false

  abbrev pub any : (A → Bool) → List A → Bool
  any p [] = false
  any p (x ∷ xs) = p x || any p xs

  pub any-append : (p : A → Bool) (xs ys : List A) → any p (xs ++ ys) ≡ (any p xs || any p ys)
  any-append p [] ys = refl
  any-append p (x ∷ xs) ys = ground (arith, any-append p xs ys)

module _ {ℓ κ} {A : Type ℓ} (P : A → Type κ) where
  abbrev pub All : List A → Type κ
  All [] = Unit
  All (x ∷ xs) = P x × All xs

  pub All-append : (xs ys : List A) → All xs → All ys → All (xs ++ ys)
  All-append [] ys _ hy = hy
  All-append (x ∷ xs) ys (px, hx) hy = (px, All-append xs ys hx hy)

  pub All-append_inv : (xs ys : List A) → All (xs ++ ys) → All xs × All ys
  All-append_inv [] ys h = (tt, h)
  All-append_inv (x ∷ xs) ys h = let (hx, hy) = All-append_inv xs ys h.1 in ((h.0, hx), hy)

-- Where an item stands in a list.
pub data In {ℓ} {A : Type ℓ} (x : A) : List A → Type ℓ where
  at_head : (xs : List A) → In x (x ∷ xs)
  behind : (y : A) (xs : List A) → In x xs → In x (y ∷ xs)

module _ {ℓ} {A : Type ℓ} where
  pub In-left : (ys : List A) (x : A) (xs : List A) → In x xs → In x (xs ++ ys)
  In-left ys x _ (at_head xs) = at_head (xs ++ ys)
  In-left ys x _ (behind y xs h) = behind y (xs ++ ys) (In-left ys x xs h)

  pub In-right : (xs ys : List A) (x : A) → In x ys → In x (xs ++ ys)
  In-right [] ys x h = h
  In-right (y ∷ xs) ys x h = behind y (xs ++ ys) (In-right xs ys x h)

  pub In-insert :
      (z : A) (ys : List A) (x : A) (xs : List A) → In x (xs ++ ys) → In x (xs ++ z ∷ ys)
  In-insert z ys x [] h = behind z ys h
  In-insert z ys _ (y ∷ xs) (at_head _) = at_head (xs ++ z ∷ ys)
  In-insert z ys x (y ∷ xs) (behind _ _ h) = behind y (xs ++ z ∷ ys) (In-insert z ys x xs h)

  move : (y z x : A) (xs : List A) → (x ≡ z) ⊎ In x xs → (x ≡ z) ⊎ In x (y ∷ xs)
  move y z x xs (inl e) = inl e
  move y z x xs (inr k) = inr (behind y xs k)

  -- An item of a list is the one that is taken out of its middle, or one of the others.
  pub In-middle :
      (z : A) (ys : List A) (x : A) (xs : List A) → In x (xs ++ z ∷ ys) → (x ≡ z) ⊎ In x (xs ++ ys)
  In-middle z ys _ [] (at_head _) = inl refl
  In-middle z ys x [] (behind _ _ h) = inr h
  In-middle z ys _ (y ∷ xs) (at_head _) = inr (at_head (xs ++ ys))
  In-middle z ys x (y ∷ xs) (behind _ _ h) = move y z x (xs ++ ys) (In-middle z ys x xs h)

pub All-In {ℓ κ} : {A : Type ℓ} (P : A → Type κ) (x : A) (xs : List A) → All P xs → In x xs → P x
All-In P x _ h (at_head xs) = h.0
All-In P x _ h (behind y xs k) = All-In P x xs h.1 k
