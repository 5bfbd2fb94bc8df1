-- ===== src/Prelude/Text/Trim.antt =====
-- What trimming keeps of a text.
use mathlib.Core.List.{reverse, reverse-append}
use Prim.Native.Nat.{ℕ, ◌≤◌}
use mathlib.Core.Path.{◌≡◌, refl, ap, ◌∙◌}
use mathlib.Core.Logic.{◌⊎◌, inl, inr}
use mathlib.Core.List.{List, [], ◌∷◌, ◌++◌}
use native.Mathlib.Omega.{arith}
use omnigent_go_sdk.Prelude.Tests.{if_intro, Bool-cases}
use omnigent_go_sdk.Prelude.Lists.{length, length-append, All, All-append}
use omnigent_go_sdk.Prelude.Text.{Text, is_space, trim_left, trim_space}

All-reverse {ℓ κ} : {A : Type ℓ} (P : A → Type κ) (s : List A) → All P s → All P (reverse s)
All-reverse P [] h = h
All-reverse P (r ∷ s) h =
    rw (reverse-append (r ∷ []) s)
      (All-append P (reverse s) (r ∷ []) (All-reverse P s h.1) (h.0, tt))

All-trim_left {κ} : (P : ℕ → Type κ) (s : Text) → All P s → All P (trim_left s)
unfolding trim_left
All-trim_left P [] h = h
All-trim_left P (r ∷ s) h = if_intro (All P) (is_space r) (λ _. All-trim_left P s h.1) (λ _. h)

pub All-trim_space {κ} : (P : ℕ → Type κ) (s : Text) → All P s → All P (trim_space s)
unfolding trim_space
All-trim_space P s h = All-reverse P _ (All-trim_left P _ (All-reverse P _ (All-trim_left P s h)))

length-reverse {ℓ} : {A : Type ℓ} (s : List A) → length (reverse s) ≡ length s
length-reverse [] = refl
length-reverse (r ∷ s) =
    ap length (reverse-append (r ∷ []) s)
    ∙ omega (arith, length-append (reverse s) (r ∷ []), length-reverse s)

length-trim_left : (s : Text) → length (trim_left s) ≤ length s
unfolding trim_left
length-trim_left [] = omega arith
length-trim_left (r ∷ s) = ground (arith, length-trim_left s)

pub length-trim_space : (s : Text) → length (trim_space s) ≤ length s
unfolding trim_space
length-trim_space s = omega (
  arith,
  length-reverse (trim_left (reverse (trim_left s))),
  length-trim_left (reverse (trim_left s)),
  length-reverse (trim_left s),
  length-trim_left s,
)

-- Trimming on the left leaves a last space, unless it leaves nothing.
trim_left_space :
    (c : Text)
    → (trim_left (c ++ 32 ∷ []) ≡ [])
      ⊎ ((d : Text) × (trim_left (c ++ 32 ∷ []) ≡ d ++ 32 ∷ []) × (length d ≤ length c))
unfolding trim_left is_space
trim_left_space [] = inl refl
trim_left_space (r ∷ c) = elim (Bool-cases (is_space r)) [
  | inl e ↦ elim (trim_left_space c) [
    | inl n ↦ inl (ground arith)
    | inr (d, p, q) ↦ inr (d, ground arith, omega arith)
  ]
  | inr e ↦ inr (r ∷ c, ground arith, omega arith)
]

length-trim_left_space : (d : Text) → length (trim_left (reverse (d ++ 32 ∷ []))) ≤ length d
unfolding trim_left is_space
length-trim_left_space d =
    rw (reverse-append d (32 ∷ [])) (omega (arith, length-trim_left (reverse d), length-reverse d))

-- A last space is trimmed.
pub length-trim_space_last : (c : Text) → length (trim_space (c ++ 32 ∷ [])) ≤ length c
unfolding trim_space trim_left
length-trim_space_last c = elim (trim_left_space c) [
  | inl n ↦ rw n (omega arith)
  | inr (d, p, q) ↦
      rw p (
        omega
          (arith, length-reverse (trim_left (reverse (d ++ 32 ∷ []))), length-trim_left_space d))
]
