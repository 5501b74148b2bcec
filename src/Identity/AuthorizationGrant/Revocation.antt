-- ===== src/Identity/AuthorizationGrant/Revocation.antt =====
-- A revoked grant: services/identity/internal/domain/authorizationgrant.
use careeria.Base.{
  ◌≡◌, true, false, Option, some, List, [], ◌∷◌, is_some, nat_comparable, list_comparable, arith,
  All,
}
use careeria.Base.Guards.{checked}
use careeria.Base.Text.{Text}
use careeria.Domain.{Time}
use careeria.Identity.AuthorizationGrant.{
  Error, AuthorizationGrant, validate_active, covers, extend, revoke,
}
use careeria.Identity.AuthorizationGrant.History.{
  KeepsRevoked, Call, extends, replaces, revokes, perform, run, revoked_inactive, stopped,
}

extend_revoked :
    (g : AuthorizationGrant) (scopes : List Text) (expires_at : Option Time) (now : Time)
    → is_some g.revoked_at ≡ true
    → is_some (extend g scopes expires_at now).0.revoked_at ≡ true
unfolding extend
extend_revoked g scopes expires_at now gone =
    checked {R = AuthorizationGrant × Option Error} (λ r. is_some r.0.revoked_at ≡ true)
      (validate_active g now) _ _ (λ e. gone)
      (λ active. absurd (stopped (validate_active g now) (revoked_inactive g now gone) active))

revoke_revoked :
    (g : AuthorizationGrant) (now : Time)
    → is_some g.revoked_at ≡ true
    → is_some (revoke g now).0.revoked_at ≡ true
unfolding revoke
revoke_revoked g now gone = ground arith

perform_revoked :
    (g : AuthorizationGrant) (c : Call) (now : Time)
    → KeepsRevoked c
    → is_some g.revoked_at ≡ true
    → is_some (perform g c now).0.revoked_at ≡ true
unfolding perform
perform_revoked g (extends scopes expires_at) now kept gone =
    extend_revoked g scopes expires_at now gone
perform_revoked g revokes now kept gone = revoke_revoked g now gone
perform_revoked g (replaces source scopes expires_at) now kept gone = absurd kept

-- A revoked grant covers nothing, at any time, whatever calls other than `Replace` follow.
revoked_until_replaced :
    (g : AuthorizationGrant) (cs : List (Call × Time)) (request : List Text) (later : Time)
    → is_some g.revoked_at ≡ true
    → All (λ c. KeepsRevoked c.0) cs
    → covers (some (run g cs)) request later ≡ false
unfolding run covers
revoked_until_replaced g [] request later gone kept = ground (arith, revoked_inactive g later gone)
revoked_until_replaced g ((c, now) ∷ cs) request later gone kept =
    revoked_until_replaced (perform g c now).0 cs request later
      (perform_revoked g c now kept.0 gone) kept.1
