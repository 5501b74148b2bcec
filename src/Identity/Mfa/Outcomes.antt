-- ===== src/Identity/Mfa/Outcomes.antt =====
-- What each method of services/identity/internal/domain/mfa/mfa.go leaves.
use careeria.Base.{
  ℕ, ◌≤◌, ◌≡◌, Bool, true, false, not, ◌&&◌, Option, none, some, List, [], ◌∷◌, ◌++◌, arith,
  is_some, All, Result, ok, err,
}
use careeria.Base.Guards.{guarded, branched, checked, found}
use careeria.Base.Int.{ℤ}
use careeria.Base.Text.{Text}
use careeria.Domain.{Time, Uuid, is_zero}
use careeria.Identity.Mfa.Types.{Error, Bytes}
use careeria.Identity.Mfa.Factors
use careeria.Identity.Mfa.Factors.{
  Factor, is_enabled, is_confirmed, is_totp, has_id, confirm, promote, rename, record_totp_use,
  record_web_authn_use,
}
use careeria.Identity.Mfa.Keeping.{
  Advances, Stepped, Answered, confirm-Stepped, disable-Stepped, enable-Stepped, rename-Answered,
  credential_key,
}
use careeria.Identity.Mfa.Recording.{
  RecordedTotp, record_totp_use-RecordedTotp, RecordedCount, record_web_authn_use-RecordedCount,
}
use careeria.Identity.Mfa.Finding.{All-changed}
use careeria.Base.Finding.{Found, index_where-Found, set_self, Pairwise, often}
use careeria.Identity.Mfa.Promoting.{Promotes, is_primary}
use careeria.Identity.Mfa.{
  Mfa, factor_index, has_primary, enabled_totp, has_enabled_totp, has_credential,
  ensure_change_allowed, on_factor, put, change_at, renamed_at, rename_factor, confirm_factor,
  disable_factor, enable_factor, record_totp_factor_use, record_web_authn_factor_use,
}

-- A factor that was enrolled: its identifier is new, it is not primary, and it is a TOTP factor or
-- has a credential only if there was none like it.
pub record Fresh (m : Mfa) (f : Factor) : Type 0 where
  pub absent : is_some (factor_index m f.id) ≡ false
  pub secondary : f.is_primary ≡ false
  pub only_totp : enabled_totp f ≡ true → has_enabled_totp m ≡ false
  pub new_key : (key : Bytes) → credential_key f ≡ some key → has_credential key m.factors ≡ false

-- One factor was made primary, the others not.
pub record Promoted (fs fs' : List Factor) : Type 0 where
  pub pairwise : Pairwise Promotes fs fs'
  pub single : often is_primary fs' ≡ 1

pub data Outcome (m : Mfa) : Mfa × Option Error → Type 0 where
  refuses : {e : Error} → Outcome m (m, some e)
  keeps : Outcome m (m, none)
  changes :
      (id : Uuid) {i : ℕ} {f f' : Factor}
      → Found (has_id id) m.factors i f
      → Advances f f' (not (has_primary m)) (not (has_enabled_totp m))
      → Outcome m (put m i f', none)
  promotes :
      {fs : List Factor} → Promoted m.factors fs → Outcome m (record m { factors = fs }, none)
  enrols : {f : Factor} → Fresh m f → Outcome m (record m { factors = m.factors ++ f ∷ [] }, none)

-- The rule for a method on one factor.
pub on_factor-rule {ℓ} :
    (P : Mfa × Option Error → Type ℓ) (m : Mfa) (id : Uuid) (now : Time)
    (change : ℕ → Factor → Mfa × Option Error)
    → ((e : Error) → P (m, some e))
    → ((i : ℕ) (f : Factor)
        → Found (has_id id) m.factors i f
        → is_zero now ≡ false
        → All (λ x. x.updated_at ≤ now) m.factors
        → P (change i f))
    → P (on_factor m id now change)
unfolding on_factor
on_factor-rule P m id now change refused there =
    checked P (ensure_change_allowed m now) _ _ refused (λ timely.
      found P (factor_index m id) _ (λ r. change r.0 r.1) (refused _)
        (λ r e.
          there r.0 r.1 (index_where-Found (has_id id) m.factors r.0 r.1 e)
            (unfold ensure_change_allowed in ground arith)
            (All-changed m.factors now (unfold ensure_change_allowed in ground arith))))

module _ (m : Mfa) (id : Uuid) (now : Time) where
  abbrev p : Bool
  p = not (has_primary m)

  abbrev t : Bool
  t = not (has_enabled_totp m)

  -- A method of the factor that was found, by what it does to the factor.
  change_at-Outcome :
      (i : ℕ) (f : Factor) (r : Factor × Option Error)
      → Found (has_id id) m.factors i f
      → Stepped f p t r
      → Outcome m (change_at m i r)
  change_at-Outcome i f (f', some e) found h = rw (h, set_self (has_id id) found) refuses
  change_at-Outcome i f (f', none) found h = changes id found h

  renamed_at-Outcome :
      (i : ℕ) (f : Factor) (r : Factor × Result Error Bool)
      → Found (has_id id) m.factors i f
      → Answered f p t now r
      → Outcome m (renamed_at m i r)
  renamed_at-Outcome i f (f', err e) found h = rw (h, set_self (has_id id) found) refuses
  renamed_at-Outcome i f (f', ok b) found h = changes id found h

  pub rename_factor-Outcome : (name : Option Text) → Outcome m (rename_factor m id name now)
  unfolding rename_factor
  rename_factor-Outcome name =
      on_factor-rule (Outcome m) m id now _ (λ e. refuses)
        (λ i f found set_time late.
          renamed_at-Outcome i f (rename f name now) found (rename-Answered f p t now name))

  pub confirm_factor-Outcome : Outcome m (confirm_factor m id now)
  unfolding confirm_factor
  confirm_factor-Outcome =
      on_factor-rule (Outcome m) m id now _ (λ e. refuses)
        (λ i f found set_time late.
          change_at-Outcome i f (confirm f p now) found (confirm-Stepped f p t now))

  pub disable_factor-Outcome : Outcome m (disable_factor m id now)
  unfolding disable_factor
  disable_factor-Outcome =
      on_factor-rule (Outcome m) m id now _ (λ e. refuses)
        (λ i f found set_time late.
          change_at-Outcome i f (Factors.disable f now) found (disable-Stepped f p t now))

  pub enable_factor-Outcome : Outcome m (enable_factor m id now)
  unfolding enable_factor
  enable_factor-Outcome =
      on_factor-rule (Outcome m) m id now _ (λ e. refuses)
        (λ i f found set_time late.
          branched (Outcome m) (is_enabled f) _ _ (λ on. keeps)
            (λ off. guarded (Outcome m) (is_totp f && has_enabled_totp m) _ _ refuses (λ free.
              change_at-Outcome i f (Factors.enable f now) found
                (enable-Stepped f p t now (λ h. ground arith)))))

  pub record_totp_factor_use-Outcome : (step : ℤ) → Outcome m (record_totp_factor_use m id step now)
  unfolding record_totp_factor_use
  record_totp_factor_use-Outcome step =
      on_factor-rule (Outcome m) m id now _ (λ e. refuses)
        (λ i f found set_time late.
          change_at-Outcome i f (record_totp_use f step now) found
            (go f (record_totp_use f step now) (record_totp_use-RecordedTotp f p t now step)))
    where
      go :
          (f : Factor) (r : Factor × Option Error) → RecordedTotp f p t now step r → Stepped f p t r
      go f (f', some e) h = h
      go f (f', none) h = h.0

  pub record_web_authn_factor_use-Outcome :
      (value : ℤ) (backup : Bool) → Outcome m (record_web_authn_factor_use m id value backup now)
  unfolding record_web_authn_factor_use
  record_web_authn_factor_use-Outcome value backup =
      on_factor-rule (Outcome m) m id now _ (λ e. refuses)
        (λ i f found set_time late.
          change_at-Outcome i f (record_web_authn_use f value backup now) found (
            go f (record_web_authn_use f value backup now)
              (record_web_authn_use-RecordedCount f p t now value backup)))
    where
      go :
          (f : Factor) (r : Factor × Option Error)
          → RecordedCount f p t now value r
          → Stepped f p t r
      go f (f', some e) h = h
      go f (f', none) h = h.0
