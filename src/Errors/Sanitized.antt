-- ===== src/Errors/Sanitized.antt =====
-- errors.go: what `sanitizeForError` lets into a message.
use omnigent_go_sdk.Prelude.{
  ℕ, ◌+◌, ◌≤◌, ◌≡◌, refl, Bool, true, false, not, ◌&&◌, [], ◌∷◌, ◌++◌, arith, ltb, leb, if_intro,
  length, length-append, All, All-append,
}
use omnigent_go_sdk.Prelude.Text.{Text, codes, trim_space}
use omnigent_go_sdk.Prelude.Text.Trim.{All-trim_space, length-trim_space, length-trim_space_last}
use omnigent_go_sdk.Errors.{is_control, sanitize_loop, sanitize_for_error}

-- No rune of the text is a control character.
abbrev pub NoControl : Text → Type 0
NoControl = All (λ r. is_control r ≡ false)

pub record IsPrintable (s : Text) : Type 0 where
  pub runes : NoControl s

dots-NoControl : NoControl (codes "...")
unfolding codes is_control
dots-NoControl = (refl, (refl, (refl, tt)))

space-NoControl : NoControl (32 ∷ [])
unfolding is_control
space-NoControl = (refl, tt)

sanitize_loop-NoControl :
    (max : ℕ) (b : Text) (space : Bool) (written : ℕ) (s : Text)
    → NoControl b
    → NoControl (sanitize_loop max b space written s)
unfolding sanitize_loop
sanitize_loop-NoControl max b space written [] h = All-trim_space _ b h
sanitize_loop-NoControl max b space written (r ∷ s) h =
    if_intro NoControl (is_control r)
      (λ _.
        if_intro NoControl (not space && ltb 0 written)
          (λ _.
            sanitize_loop-NoControl max (b ++ 32 ∷ []) true (written + 1) s
              (All-append _ b (32 ∷ []) h space-NoControl))
          (λ _. sanitize_loop-NoControl max b space written s h))
      (λ c.
        if_intro NoControl (leb max written)
          (λ _. All-append _ (trim_space b) (codes "...") (All-trim_space _ b h) dots-NoControl)
          (λ _.
            sanitize_loop-NoControl max (b ++ r ∷ []) false (written + 1) s
              (All-append _ b (r ∷ []) h (c, tt))))

-- `written` counts the builder, which is over the bound by at most one last space.
abbrev Fits : ℕ → Text → Bool → ℕ → Type 0
Fits max b false written = (length b ≡ written) × (written ≤ max)
Fits max b true written =
    (c : Text) × (b ≡ c ++ 32 ∷ []) × (length c ≤ max) × (written ≡ length c + 1)

trimmed-Fits :
    (max : ℕ) (b : Text) (space : Bool) (written : ℕ)
    → Fits max b space written
    → length (trim_space b) ≤ max
trimmed-Fits max b false written h = omega (arith, length-trim_space b)
trimmed-Fits max b true written (c, p, q, w) = rw p (omega (arith, length-trim_space_last c))

Fits-written :
    (max : ℕ) (b : Text) (space : Bool) (written : ℕ)
    → Fits max b space written
    → length b ≡ written
Fits-written max b false written h = h.0
Fits-written max b true written (c, p, q, w) = rw p (omega (arith, length-append c (32 ∷ [])))

length-dots : length (codes "...") ≡ 3
unfolding codes
length-dots = refl

-- The length is within the cap and its mark.
abbrev Capped : ℕ → Text → Type 0
Capped max t = length t ≤ max + 3

marked-Capped :
    (max : ℕ) (b : Text) → length (trim_space b) ≤ max → Capped max (trim_space b ++ codes "...")
marked-Capped max b h = omega (arith, length-append (trim_space b) (codes "..."), length-dots)

kept-Fits :
    (max : ℕ) (b : Text) (written r : ℕ)
    → length b ≡ written
    → leb max written ≡ false
    → Fits max (b ++ r ∷ []) false (written + 1)
kept-Fits max b written r e h = ground (arith, length-append b (r ∷ []))

Capped-sanitize_loop :
    (max : ℕ) (b : Text) (space : Bool) (written : ℕ) (s : Text)
    → Fits max b space written
    → Capped max (sanitize_loop max b space written s)
unfolding sanitize_loop
Capped-sanitize_loop max b space written [] h = omega (arith, trimmed-Fits max b space written h)
Capped-sanitize_loop max b true written (r ∷ s) h =
    if_intro (Capped max) (is_control r) (λ _. Capped-sanitize_loop max b true written s h)
      (λ _.
        if_intro (Capped max) (leb max written)
          (λ _. marked-Capped max b (trimmed-Fits max b true written h))
          (λ k.
            Capped-sanitize_loop max (b ++ r ∷ []) false (written + 1) s
              (kept-Fits max b written r (Fits-written max b true written h) k)))
Capped-sanitize_loop max b false written (r ∷ s) h =
    if_intro (Capped max) (is_control r)
      (λ _.
        if_intro (Capped max) (ltb 0 written)
          (λ _.
            Capped-sanitize_loop max (b ++ 32 ∷ []) true (written + 1) s
              (b, refl, omega arith, omega arith))
          (λ _. Capped-sanitize_loop max b false written s h))
      (λ _.
        if_intro (Capped max) (leb max written)
          (λ _. marked-Capped max b (trimmed-Fits max b false written h))
          (λ k.
            Capped-sanitize_loop max (b ++ r ∷ []) false (written + 1) s
              (kept-Fits max b written r h.0 k)))

-- The rendered text holds no control character, so it can neither start a second log line nor
-- drive a terminal, and is at most `max` characters and the mark of a cut long, whatever the
-- server sent.
pub sanitize_for_error_safe :
    (s : Text) (max : ℕ)
    → IsPrintable (sanitize_for_error s max) × (length (sanitize_for_error s max) ≤ max + 3)
unfolding sanitize_for_error
sanitize_for_error_safe s max = (
  record { runes = sanitize_loop-NoControl max [] false 0 s tt },
  Capped-sanitize_loop max [] false 0 s (refl, omega arith),
)
