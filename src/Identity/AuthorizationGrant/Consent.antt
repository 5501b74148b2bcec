-- ===== src/Identity/AuthorizationGrant/Consent.antt =====
-- What `ResolveConsent` decides: services/identity/internal/domain/authorizationgrant.
use careeria.Base.{
  ◌≡◌, refl, Bool, true, false, not, ◌||◌, Option, some, List, Result, ok, nat_comparable,
  list_comparable, Distinct, Within, arith,
}
use careeria.Base.Guards.{guarded, checked}
use careeria.Base.Text.{Text}
use careeria.Domain.{Time, has_duplicates}
use careeria.Domain.Duplicates.{has_duplicates-Distinct}
use careeria.Identity.AuthenticationFlow.{ConsentMode, mode_trusted, mode_remember}
use careeria.Identity.AuthorizationGrant.{
  Error, AuthorizationGrant, validate_scopes, all_in, covers, ConsentDecision, consent_remembered,
  consent_trusted, Decision, OauthClient, consent_kind, resolve_consent,
}
use careeria.Identity.AuthorizationGrant.Covering.{all_in-Within}

-- What is true of each decision of `ResolveConsent`.
pub record IsJustified (client : OauthClient) (grant : Option AuthorizationGrant)
    (requested : List Text) (force : Bool) (now : Time) (d : Decision) : Type 0 where
  pub scopes_kept : d.scopes ≡ requested
  pub within_client : Within requested client.scopes
  pub once_each : Distinct requested
  pub remembered_covers :
      d.kind ≡ consent_remembered
      → (force ≡ false)
        × (client.consent_mode ≡ mode_remember)
        × (covers grant requested now ≡ true)
  pub trusted_client :
      d.kind ≡ consent_trusted → (force ≡ false) × (client.consent_mode ≡ mode_trusted)

kind_remembered :
    (mode : ConsentMode) (grant : Option AuthorizationGrant) (requested : List Text) (force : Bool)
    (now : Time)
    → consent_kind mode grant requested force now ≡ consent_remembered
    → (force ≡ false) × (mode ≡ mode_remember) × (covers grant requested now ≡ true)
unfolding consent_kind
kind_remembered mode grant requested force now h = ground arith

kind_trusted :
    (mode : ConsentMode) (grant : Option AuthorizationGrant) (requested : List Text) (force : Bool)
    (now : Time)
    → consent_kind mode grant requested force now ≡ consent_trusted
    → (force ≡ false) × (mode ≡ mode_trusted)
unfolding consent_kind
kind_trusted mode grant requested force now h = ground arith

-- `ResolveConsent` decides for the scopes as they were requested, none twice and each registered by
-- the client. It goes without asking only where asking is not forced, and then for the grant of a
-- client that remembers and a grant that covers the request, or for a trusted client.
pub resolve_consent-IsJustified :
    (client : OauthClient) (grant : Option AuthorizationGrant) (requested : List Text)
    (force : Bool) (now : Time) (d : Decision)
    → resolve_consent (some client) grant requested force now ≡ ok d
    → IsJustified client grant requested force now d
unfolding resolve_consent
resolve_consent-IsJustified client grant requested force now d =
    checked P (validate_scopes requested) _ _ (λ e h. cc h)
      (λ valid.
        guarded P (has_duplicates requested || not (all_in client.scopes requested)) _ _ (λ h. cc h)
          (λ allowed h. justified (cc h) (ground (arith, allowed)) (ground (arith, allowed))))
  where
    P : Result Error Decision → Type 0
    P r = r ≡ ok d → IsJustified client grant requested force now d

    kind : ConsentDecision
    kind = consent_kind client.consent_mode grant requested force now

    justified :
        d ≡ record { kind = kind; scopes = requested }
        → has_duplicates requested ≡ false
        → all_in client.scopes requested ≡ true
        → IsJustified client grant requested force now d
    justified e once allowed = rw e (record {
      scopes_kept = refl;
      within_client = (all_in-Within client.scopes requested).0 allowed;
      once_each = (has_duplicates-Distinct requested).0 once;
      remembered_covers = kind_remembered client.consent_mode grant requested force now;
      trusted_client = kind_trusted client.consent_mode grant requested force now;
    })
