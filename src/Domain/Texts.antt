-- ===== src/Domain/Texts.antt =====
-- The text helpers of services/identity/internal/domain/helpers.go.
use careeria.Base.{◌≡◌, refl, Option, none, some, is_empty, Bool-cases, inl, inr}
use careeria.Base.Text.{Text, trim_space, trim_space_idem}
use careeria.Domain.{normalize_required_text, normalize_optional_text}

-- What `NormalizeRequiredText` accepts it accepts again unchanged.
pub normalize_required_text_idem :
    (value : Text)
    → normalize_required_text (normalize_required_text value).0 ≡ normalize_required_text value
unfolding normalize_required_text
normalize_required_text_idem value = rw (trim_space_idem value)

-- `NormalizeOptionalText` is idempotent.
normalize_optional_text_idem :
    (value : Option Text)
    → normalize_optional_text (normalize_optional_text value) ≡ normalize_optional_text value
unfolding normalize_optional_text
normalize_optional_text_idem none = refl
normalize_optional_text_idem (some value) = elim (Bool-cases (is_empty (trim_space value))) [
  | inl blank ↦ rw blank
  | inr ink ↦ rw (ink, normalize_optional_text, trim_space_idem value, ink)
]
