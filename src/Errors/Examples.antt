-- ===== src/Errors/Examples.antt =====
-- A response whose error carries a control character, and one whose Content-Type does.
use omnigent_go_sdk.Prelude.{ℕ, ◌+◌, ◌≤◌, ◌≡◌, refl, ◌⊎◌, [], ◌∷◌, arith, length, true}
use omnigent_go_sdk.Prelude.Text.{Text}
use omnigent_go_sdk.Errors.{
  is_control, sanitize_for_error, max_error_field_runes, unavailable, server_error, is_sentinel,
  ApiError, error_text,
}
use omnigent_go_sdk.Errors.Sanitized.{IsPrintable, sanitize_for_error_safe}
use omnigent_go_sdk.Errors.Rendered.{
  error_text-IsPrintable, content_type_rendered_raw, is_sentinel_overlap,
}

-- A line break, an escape and two letters.
abbrev forged : Text
forged = 65 ∷ 10 ∷ 27 ∷ 66 ∷ []

sanitize_for_error_example :
    IsPrintable (sanitize_for_error forged max_error_field_runes)
    × (length (sanitize_for_error forged max_error_field_runes) ≤ max_error_field_runes + 3)
sanitize_for_error_example = sanitize_for_error_safe forged max_error_field_runes

abbrev no_texts : ℕ → Text
no_texts _ = []

abbrev forged_error : ApiError
forged_error = record {
  status_code = 404;
  code = forged;
  message = forged;
  title = forged;
  body_length = 12;
  content_type = [];
  request_id = forged;
}

error_text_example : IsPrintable (error_text no_texts forged_error)
error_text_example =
    error_text-IsPrintable no_texts forged_error (λ _. record { runes = tt })
      (record { runes = tt })

abbrev forged_type : ApiError
forged_type = record {
  status_code = 502;
  code = [];
  message = [];
  title = [];
  body_length = 12;
  content_type = forged;
  request_id = [];
}

forged_not-IsPrintable : ¬ (IsPrintable forged)
unfolding is_control
forged_not-IsPrintable h = let (a, (b, c)) = h.runes in cc

content_type_rendered_raw_example : ¬ (IsPrintable (error_text no_texts forged_type))
content_type_rendered_raw_example =
    content_type_rendered_raw no_texts forged_type
      (record { code = refl; message = refl; title = refl; has_body = omega arith; typed = refl })
      forged_not-IsPrintable

abbrev no_service : ℕ
no_service = 503

unavailable_matches : is_sentinel no_service unavailable ≡ true
unfolding is_sentinel
unavailable_matches = refl

server_error_matches : is_sentinel no_service server_error ≡ true
unfolding is_sentinel
server_error_matches = refl

is_sentinel_overlap_example :
    (unavailable ≡ server_error)
    ⊎ ((no_service ≡ 503) × (unavailable ≡ unavailable) × (server_error ≡ server_error))
    ⊎ ((no_service ≡ 503) × (unavailable ≡ server_error) × (server_error ≡ unavailable))
is_sentinel_overlap_example =
    is_sentinel_overlap no_service unavailable server_error unavailable_matches server_error_matches
