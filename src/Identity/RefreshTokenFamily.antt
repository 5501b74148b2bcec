-- ===== src/Identity/RefreshTokenFamily.antt =====
-- services/identity/internal/domain/refreshtokenfamily/family.go. A method returns the family that
-- it leaves, the changes made before an error included, and its result.
pub mod Errors
pub mod Token
pub mod Times
pub mod Listing
pub mod Invariant
pub mod Revocation
pub mod Presenting
pub mod Rotation
pub mod Safety
pub mod SingleUse
pub mod Spent
pub mod Reuse
mod Tests
use careeria.Base.{
  ℕ, zero, suc, ◌+◌, ◌≡◌, Bool, true, false, not, ◌||◌, Option, none, some, List, [], ◌∷◌, ◌++◌,
  ◌==◌, if◌then◌else◌, is_some, Result, ok, err, set, equal, Comparable, nat_comparable,
  list_comparable,
}
use careeria.Base.Text.{Text, codes}
use careeria.Domain.{
  Time, Uuid, before, after, is_zero, is_valid_id, latest_of, normalize_required_text,
}
use Errors.{
  Error, family_revoked, family_expired, token_not_found, token_already_rotated,
  identifier_required, session_invalid, absolute_expiration_invalid, initial_token_exceeds,
  revoke_time_invalid, reason_required, rotation_time_invalid, next_identifier_exists,
  next_hash_exists, next_expiration_exceeds,
}
use Token.{
  RefreshToken, new_refresh_token, validate_for_rotation, mark_rotated, record_reuse_detected,
  revoke_token,
}

pub record RefreshTokenFamily : Type 0 where
  pub id : Uuid
  pub session_id : Uuid
  pub tokens : List RefreshToken
  pub created_at : Time
  pub last_rotated_at : Option Time
  pub absolute_expires_at : Time
  pub reuse_detected_at : Option Time
  pub revoked_at : Option Time
  pub revoke_reason : Option Text

pub data RotationOutcome : Type 0 where
  rotated reuse_detected : RotationOutcome

abbrev pub reuse_detected_revoke_reason : Text
reuse_detected_revoke_reason = codes "refresh_token_reuse_detected"

unfoldable pub new :
    Uuid
    → Uuid
    → Uuid
    → Text
    → Time
    → Time
    → Option Text
    → Option Text
    → Time
    → Result Error RefreshTokenFamily
unfolding new_refresh_token
new id session_id token_id hash token_expires_at absolute_expires_at ip user_agent now =
    let token = new_refresh_token token_id none hash token_expires_at ip user_agent now in
    if not (is_valid_id id)
    then err identifier_required
    else if not (is_valid_id session_id)
    then err session_invalid
    else if is_zero now || not (after absolute_expires_at now)
    then err absolute_expiration_invalid
    else if after token_expires_at absolute_expires_at
    then err initial_token_exceeds
    else elim token [
      | err e ↦ err e
      | ok t ↦ ok (record {
        id = id;
        session_id = session_id;
        tokens = t ∷ [];
        created_at = now;
        last_rotated_at = none;
        absolute_expires_at = absolute_expires_at;
        reuse_detected_at = none;
        revoked_at = none;
        revoke_reason = none;
      })
    ]

unfoldable pub family_changed_at : RefreshTokenFamily → Time
family_changed_at f =
    latest_of f.created_at (f.last_rotated_at ∷ f.reuse_detected_at ∷ f.revoked_at ∷ [])

-- The loop of `revoke`, which stops at the first token that refuses.
pub revoke_tokens : List RefreshToken → Text → Time → List RefreshToken × Option Error
revoke_tokens [] reason now = ([], none)
revoke_tokens (t ∷ ts) reason now =
    let rest = revoke_tokens ts reason now in
    let (t', refused) = revoke_token t reason now in
    elim refused [ some e ↦ (t' ∷ ts, some e) | none ↦ (t' ∷ rest.0, rest.1) ]

pub revoke_all : RefreshTokenFamily → Text → Time → RefreshTokenFamily × Option Error
unfolding revoke_tokens
revoke_all f reason now =
    let (ts, refused) = revoke_tokens f.tokens reason now in
    elim refused [
      | some e ↦ (record f { tokens = ts }, some e)
      | none ↦ (record f { tokens = ts; revoked_at = some now; revoke_reason = some reason }, none)
    ]

unfoldable pub revoke : RefreshTokenFamily → Text → Time → RefreshTokenFamily × Option Error
unfolding revoke_all
revoke f reason now =
    let (normalized, present) = normalize_required_text reason in
    if is_some f.revoked_at
    then (f, none)
    else if is_zero now || before now (family_changed_at f)
    then (f, some revoke_time_invalid)
    else if not present
    then (f, some reason_required)
    else revoke_all f normalized now

unfoldable pub ensure_rotation_allowed : RefreshTokenFamily → Time → Option Error
ensure_rotation_allowed f now =
    if is_zero now || before now (family_changed_at f)
    then some rotation_time_invalid
    else if is_some f.revoked_at
    then some family_revoked
    else if not (before now f.absolute_expires_at)
    then some family_expired
    else none

-- `tokenIndex`, with the token at the index; `none` is -1.
unfoldable pub token_index : List RefreshToken → Uuid → Option (ℕ × RefreshToken)
token_index [] id = none
token_index (t ∷ ts) id =
    let rest = token_index ts id in
    if t.id == id
    then some (0, t)
    else elim rest [ none ↦ none | some (index, found) ↦ some (suc index, found) ]

unfoldable pub has_token_hash : List RefreshToken → Text → Bool
has_token_hash [] hash = false
has_token_hash (t ∷ ts) hash = equal t.hash hash || has_token_hash ts hash

-- The loop of `TokenIDByHash`.
scan_hash : List RefreshToken → Text → Result Error Uuid
scan_hash [] hash = err token_not_found
scan_hash (t ∷ ts) hash = if equal t.hash hash then ok t.id else scan_hash ts hash

unfoldable pub token_id_by_hash : RefreshTokenFamily → Text → Result Error Uuid
unfolding scan_hash
token_id_by_hash f hash = scan_hash f.tokens hash

-- The arguments of `Rotate` for the token to issue.
pub record NextToken : Type 0 where
  pub token_id : Uuid
  pub token_hash : Text
  pub token_expires_at : Time
  pub from_ip : Option Text
  pub user_agent : Option Text

-- `Rotate` when the presented token was rotated before.
pub detect_reuse :
    RefreshTokenFamily → ℕ → RefreshToken → Time → RefreshTokenFamily × Result Error RotationOutcome
unfolding revoke_all record_reuse_detected
detect_reuse f index presented now =
    let (t, unrecorded) = record_reuse_detected presented now in
    let marked = record f { tokens = set f.tokens index t; reuse_detected_at = some now } in
    let (g, unrevoked) = revoke_all marked reuse_detected_revoke_reason now in
    elim unrecorded [
      | some e ↦ (f, err e)
      | none ↦ elim unrevoked [ some e ↦ (g, err e) | none ↦ (g, ok reuse_detected) ]
    ]

-- `Rotate` from the checks of the next token on.
pub issue_next :
    RefreshTokenFamily
    → Uuid
    → ℕ
    → RefreshToken
    → NextToken
    → Time
    → RefreshTokenFamily × Result Error RotationOutcome
unfolding token_index has_token_hash new_refresh_token mark_rotated
issue_next f presented_id index presented next now =
    let issued =
      new_refresh_token next.token_id (some presented_id) next.token_hash next.token_expires_at
        next.from_ip next.user_agent now in
    let (t, unmarked) = mark_rotated presented now in
    if is_some (token_index f.tokens next.token_id)
    then (f, err next_identifier_exists)
    else if has_token_hash f.tokens next.token_hash
    then (f, err next_hash_exists)
    else if after next.token_expires_at f.absolute_expires_at
    then (f, err next_expiration_exceeds)
    else elim issued [
      | err e ↦ (f, err e)
      | ok token ↦ elim unmarked [
        | some e ↦ (f, err e)
        | none ↦ (
          record f { tokens = set f.tokens index t ++ token ∷ []; last_rotated_at = some now },
          ok rotated,
        )
      ]
    ]

-- `Rotate` by what `ValidateForRotation` says of the presented token.
pub rotate_presented :
    RefreshTokenFamily
    → Uuid
    → ℕ
    → RefreshToken
    → NextToken
    → Time
    → Option Error
    → RefreshTokenFamily × Result Error RotationOutcome
unfolding detect_reuse issue_next
rotate_presented f presented_id index presented next now (some token_already_rotated) =
    detect_reuse f index presented now
rotate_presented f presented_id index presented next now (some e) = (f, err e)
rotate_presented f presented_id index presented next now none =
    issue_next f presented_id index presented next now

unfoldable pub rotate :
    RefreshTokenFamily → Uuid → NextToken → Time → RefreshTokenFamily × Result Error RotationOutcome
unfolding ensure_rotation_allowed token_index validate_for_rotation rotate_presented
rotate f presented_id next now = elim (ensure_rotation_allowed f now) [
  | some e ↦ (f, err e)
  | none ↦ elim (token_index f.tokens presented_id) [
    | none ↦ (f, err token_not_found)
    | some (index, presented) ↦
        rotate_presented f presented_id index presented next now
          (validate_for_rotation presented now)
  ]
]
