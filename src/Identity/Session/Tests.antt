-- ===== src/Identity/Session/Tests.antt =====
-- A session with a password, seen twice and revoked.
use careeria.Base.{◌≡◌, ◌≤◌, refl, none, some, List, [], ◌∷◌, ok}
use careeria.Base.Text.{codes}
use careeria.Domain.{Time, has_duplicates, has_duplicates_from, normalize_optional_text}
use careeria.Identity.Authentication.{password, single_factor, resolve_level, resolve_from}
use careeria.Identity.Session.{Session, new}
use careeria.Identity.Session.Expiry.{Call, sees, revokes, run, new-run-expiry}

abbrev session : Session
session = record {
  id = 1;
  identity_id = 2;
  oauth_client_id = 3;
  authentication_level = single_factor;
  authenticated_methods = password ∷ [];
  scopes = codes "openid" ∷ [];
  ip_address = none;
  user_agent = none;
  device_name = none;
  created_at = 100;
  authenticated_at = 90;
  last_seen_at = none;
  idle_expires_at = 200;
  absolute_expires_at = 500;
  revoked_at = none;
  revoke_reason = none;
}

abbrev calls : List (Call × Time)
calls = (sees 250, 150) ∷ (sees 400, 300) ∷ (revokes (codes "logout"), 310) ∷ []

session_made :
    new 1 2 3 single_factor (password ∷ []) (codes "openid" ∷ []) none none none 90 200 500 100
    ≡ ok session
unfolding new resolve_level resolve_from has_duplicates has_duplicates_from normalize_optional_text
session_made = refl

new-run-expiry_example :
    ((run session calls).absolute_expires_at ≡ 500)
    × (200 ≤ (run session calls).idle_expires_at)
    × ((run session calls).idle_expires_at ≤ 500)
new-run-expiry_example =
    new-run-expiry 1 2 3 single_factor (password ∷ []) (codes "openid" ∷ []) none none none 90 200
      500 100 session calls session_made

abbrev revoked_session : Session
revoked_session = record session { revoked_at = some 120; revoke_reason = some (codes "logout") }
