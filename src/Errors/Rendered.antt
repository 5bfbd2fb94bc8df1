-- ===== src/Errors/Rendered.antt =====
-- The message of an APIError, and the sentinels that it matches.
use omnigent_go_sdk.Prelude.{
  ℕ, zero, suc, ◌+◌, ◌≤◌, ◌<◌, ◌≡◌, refl, subst, ◌⊎◌, Bool, true, false, not, ◌&&◌, [], ◌∷◌, ◌++◌,
  arith, ltb, if_intro, if◌then◌else◌, is_empty, All-append, All-append_inv,
}
use Prim.Native.Nat.{◌/◌, ◌%◌}
use omnigent_go_sdk.Prelude.Text.{Text, codes, trim_space, decimal_fuel, decimal}
use omnigent_go_sdk.Errors.{
  Sentinel, unavailable, server_error, ApiError, is_control, is_sentinel, sanitize_for_error,
  error_detail, error_headline, error_label, error_note, error_text, max_error_field_runes,
}
use omnigent_go_sdk.Errors.Sanitized.{NoControl, IsPrintable, sanitize_for_error_safe}

join : (s t : Text) → IsPrintable s → IsPrintable t → IsPrintable (s ++ t)
join s t p q = record { runes = All-append _ s t p.runes q.runes }

printable : Text → Bool
printable [] = true
printable (r ∷ s) = not (is_control r) && printable s

printable-NoControl : (s : Text) → printable s ≡ true → NoControl s
unfolding printable
printable-NoControl [] h = tt
printable-NoControl (r ∷ s) h = (ground arith, printable-NoControl s (ground arith))

of_printable : (s : Text) → printable s ≡ true → IsPrintable s
of_printable s h = record { runes = printable-NoControl s h }

none-IsPrintable : IsPrintable []
none-IsPrintable = record { runes = tt }

digit_no_control : (n : ℕ) → n ≤ 9 → is_control (48 + n) ≡ false
unfolding is_control
digit_no_control n h = ground arith

digit-IsPrintable : (n : ℕ) → n ≤ 9 → IsPrintable ((48 + n) ∷ [])
digit-IsPrintable n h = record { runes = (digit_no_control n h, tt) }

decimal_fuel-IsPrintable : (f n : ℕ) → IsPrintable (decimal_fuel f n)
unfolding decimal_fuel
decimal_fuel-IsPrintable zero n = none-IsPrintable
decimal_fuel-IsPrintable (suc f) n =
    if_intro IsPrintable (ltb n 10) (λ h. digit-IsPrintable n (ground arith))
      (λ _.
        join _ _ (decimal_fuel-IsPrintable f (n / 10)) (digit-IsPrintable (n % 10) (omega arith)))

decimal-IsPrintable : (n : ℕ) → IsPrintable (decimal n)
unfolding decimal
decimal-IsPrintable n = decimal_fuel-IsPrintable (suc n) n

sanitized : (s : Text) (max : ℕ) → IsPrintable (sanitize_for_error s max)
sanitized s max = (sanitize_for_error_safe s max).0

IsPrintable-if :
    (b : Bool) (s t : Text) → IsPrintable s → IsPrintable t → IsPrintable (if b then s else t)
IsPrintable-if true s t p q = p
IsPrintable-if false s t p q = q

-- The literals of the message.
colon-IsPrintable : IsPrintable (codes ": ")
unfolding printable is_control codes
colon-IsPrintable = of_printable _ refl

gap-IsPrintable : IsPrintable (codes " ")
unfolding printable is_control codes
gap-IsPrintable = of_printable _ refl

no_envelope-IsPrintable : IsPrintable (codes ": no error envelope, ")
unfolding printable is_control codes
no_envelope-IsPrintable = of_printable _ refl

byte_length-IsPrintable : IsPrintable (codes "-byte ")
unfolding printable is_control codes
byte_length-IsPrintable = of_printable _ refl

untyped-IsPrintable : IsPrintable (codes "untyped")
unfolding printable is_control codes
untyped-IsPrintable = of_printable _ refl

body_withheld-IsPrintable : IsPrintable (codes " body withheld (see APIError.Body)")
unfolding printable is_control codes
body_withheld-IsPrintable = of_printable _ refl

package_name-IsPrintable : IsPrintable (codes "omnigent: ")
unfolding printable is_control codes
package_name-IsPrintable = of_printable _ refl

request_id-IsPrintable : IsPrintable (codes " (request id ")
unfolding printable is_control codes
request_id-IsPrintable = of_printable _ refl

closing-IsPrintable : IsPrintable (codes ")")
unfolding printable is_control codes
closing-IsPrintable = of_printable _ refl

ruleset parts = (
  join, IsPrintable-if, sanitized, decimal-IsPrintable, none-IsPrintable, colon-IsPrintable,
  gap-IsPrintable, no_envelope-IsPrintable, byte_length-IsPrintable, untyped-IsPrintable,
  body_withheld-IsPrintable, package_name-IsPrintable, request_id-IsPrintable, closing-IsPrintable,
)

error_headline-IsPrintable : (e : ApiError) → IsPrintable (error_headline e)
unfolding error_headline
error_headline-IsPrintable e = search parts

error_label-IsPrintable :
    (status_text : ℕ → Text) (e : ApiError)
    → IsPrintable (status_text e.status_code)
    → IsPrintable (error_label status_text e)
unfolding error_label
error_label-IsPrintable status_text e h = search parts

error_note-IsPrintable : (e : ApiError) → IsPrintable (error_note e)
unfolding error_note
error_note-IsPrintable e = search parts

error_detail-IsPrintable :
    (e : ApiError) (label headline message : Text)
    → IsPrintable label
    → IsPrintable headline
    → IsPrintable message
    → IsPrintable e.content_type
    → IsPrintable (error_detail e label headline message)
unfolding error_detail
error_detail-IsPrintable e label headline message l h m k = search parts depth 14

-- Where the Content-Type that the server sent is printable, the whole message is, whatever else
-- the server chose: code, title, message, body and request id. `status_text` is the table of
-- package net/http, whose texts are printable.
pub error_text-IsPrintable :
    (status_text : ℕ → Text) (e : ApiError)
    → ((n : ℕ) → IsPrintable (status_text n))
    → IsPrintable e.content_type
    → IsPrintable (error_text status_text e)
unfolding error_text codes
error_text-IsPrintable status_text e table k = join _ _ package_name-IsPrintable (
    join _ _
      (error_detail-IsPrintable e _ _ _ (error_label-IsPrintable status_text e (table _))
        (error_headline-IsPrintable e) (sanitized e.message _) k)
      (error_note-IsPrintable e))

parts_of : (s t : Text) → IsPrintable (s ++ t) → IsPrintable s × IsPrintable t
parts_of s t h =
    let (p, q) = All-append_inv _ s t h.runes in (record { runes = p }, record { runes = q })

-- Nothing but the Content-Type names the failure.
pub record Untitled (e : ApiError) : Type 0 where
  pub code : e.code ≡ []
  pub message : e.message ≡ []
  pub title : e.title ≡ []
  pub has_body : 0 < e.body_length
  pub typed : is_empty e.content_type ≡ false

sanitize-nil : (max : ℕ) → sanitize_for_error [] max ≡ []
unfolding sanitize_for_error trim_space
sanitize-nil max = refl

error_headline-Untitled : (e : ApiError) → Untitled e → error_headline e ≡ []
unfolding error_headline
error_headline-Untitled e u = rw (u.title, u.code) (sanitize-nil _)

error_detail-Untitled :
    (e : ApiError) (label : Text)
    → Untitled e
    → error_detail e label (error_headline e) (sanitize_for_error e.message max_error_field_runes)
      ≡ label
        ++ codes ": no error envelope, "
        ++ decimal e.body_length
        ++ codes "-byte "
        ++ e.content_type
        ++ codes " body withheld (see APIError.Body)"
unfolding error_detail
error_detail-Untitled e label u =
    ground (arith, sanitize-nil max_error_field_runes, error_headline-Untitled e u)

-- Where a response carries a body, a Content-Type and none of the three texts, a control
-- character that the server put into the Content-Type stays in the message.
pub content_type_rendered_raw :
    (status_text : ℕ → Text) (e : ApiError)
    → Untitled e
    → ¬ (IsPrintable e.content_type)
    → ¬ (IsPrintable (error_text status_text e))
unfolding error_text codes
content_type_rendered_raw status_text e u raw h =
    let label = error_label status_text e in
    let detail = (parts_of (codes "omnigent: ") _ (parts_of _ (error_note e) h).0).1 in
    let spelled = subst IsPrintable (error_detail-Untitled e label u) detail in
    raw
      (parts_of _ e.content_type
        (parts_of _ (codes " body withheld (see APIError.Body)") spelled).0).1

-- An APIError matches a sentinel for one class of statuses, and besides it only the sentinel of
-- the server's errors: two different sentinels that both match are the server's own and the one
-- of an unavailable service, at status 503.
pub is_sentinel_overlap :
    (status : ℕ) (s t : Sentinel)
    → is_sentinel status s ≡ true
    → is_sentinel status t ≡ true
    → (s ≡ t)
      ⊎ ((status ≡ 503) × (s ≡ unavailable) × (t ≡ server_error))
      ⊎ ((status ≡ 503) × (s ≡ server_error) × (t ≡ unavailable))
unfolding is_sentinel
is_sentinel_overlap status s t h k = ground arith
