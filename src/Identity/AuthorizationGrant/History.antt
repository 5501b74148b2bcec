-- ===== src/Identity/AuthorizationGrant/History.antt =====
-- A grant under calls of its methods, in any order: services/identity/internal/domain/authorizationgrant.
use careeria.Base.{
  ◌≡◌, ◌≤◌, ◌<◌, refl, true, false, not, ◌||◌, Option, none, some, List, [], ◌∷◌, is_some, Result,
  ok, nat_comparable, list_comparable, arith, Option-cases, inl, inr,
}
use careeria.Base.Guards.{guarded, checked, settled}
use careeria.Base.Text.{Text}
use careeria.Domain.{Time, Uuid, is_zero, before, is_valid_id}
use careeria.Identity.AuthorizationGrant.{
  Error, Source, parse_source, AuthorizationGrant, new, validate_scopes, validate_active,
  ends_before, extend, replace, revoke,
}
use careeria.Identity.AuthorizationGrant.Merging.{merged_valid}

pub data Call : Type 0 where
  extends : List Text → Option Time → Call
  replaces : Source → List Text → Option Time → Call
  revokes : Call

unfoldable pub perform : AuthorizationGrant → Call → Time → AuthorizationGrant × Option Error
perform g (extends scopes expires_at) now = extend g scopes expires_at now
perform g (replaces source scopes expires_at) now = replace g source scopes expires_at now
perform g revokes now = revoke g now

unfoldable pub run : AuthorizationGrant → List (Call × Time) → AuthorizationGrant
unfolding perform
run g [] = g
run g ((c, now) ∷ cs) = run (perform g c now).0 cs

-- An end is after the grant's beginning.
abbrev pub EndsAfter : Option Time → Time → Type 0
EndsAfter none begin = Unit
EndsAfter (some t) begin = begin < t

-- A revocation is the last change.
abbrev pub LastChange : Option Time → Time → Type 0
LastChange none updated = Unit
LastChange (some t) updated = t ≡ updated

pub record WellFormed (g : AuthorizationGrant) : Type 0 where
  pub scopes_valid : validate_scopes g.scopes ≡ none
  pub begun : 0 < g.granted_at
  pub in_order : g.granted_at ≤ g.updated_at
  pub ends : EndsAfter g.expires_at g.granted_at
  pub revocation : LastChange g.revoked_at g.updated_at

abbrev Good : AuthorizationGrant × Option Error → Type 0
Good r = WellFormed r.0

ends_after : (end : Option Time) (now : Time) → ends_before end now ≡ false → EndsAfter end now
ends_after none now h = tt
ends_after (some t) now h = ground arith

ordered :
    (g : AuthorizationGrant) (now : Time)
    → g.granted_at ≤ g.updated_at
    → validate_active g now ≡ none
    → g.granted_at ≤ now
unfolding validate_active
ordered g now order active = ground arith

pub revoked_inactive :
    (g : AuthorizationGrant) (now : Time)
    → is_some g.revoked_at ≡ true
    → is_some (validate_active g now) ≡ true
unfolding validate_active
revoked_inactive g now gone = ground arith

pub stopped : (o : Option Error) → is_some o ≡ true → o ≡ none → ⊥
stopped none h k = cc h
stopped (some e) h k = cc k

unrevoked :
    (g : AuthorizationGrant) (now : Time)
    → validate_active g now ≡ none
    → LastChange g.revoked_at now
unrevoked g now active = elim (Option-cases g.revoked_at) [
  | inl free ↦ rw free tt
  | inr (t, gone) ↦
      absurd (stopped (validate_active g now) (revoked_inactive g now (rw gone refl)) active)
]

extend-WellFormed :
    (g : AuthorizationGrant) (scopes : List Text) (expires_at : Option Time) (now : Time)
    → WellFormed g
    → WellFormed (extend g scopes expires_at now).0
unfolding extend
extend-WellFormed g scopes expires_at now w =
    checked Good (validate_active g now) _ _ (λ e. w)
      (λ active.
        checked Good (validate_scopes scopes) _ _ (λ e. w)
          (λ valid. guarded Good (ends_before expires_at now) _ _ w (λ ends. record {
            scopes_valid = merged_valid g.scopes scopes w.scopes_valid valid;
            begun = w.begun;
            in_order = ordered g now w.in_order active;
            ends = later_end expires_at (ordered g now w.in_order active) ends;
            revocation = unrevoked g now active;
          })))
  where
    later_end :
        (end : Option Time)
        → g.granted_at ≤ now
        → ends_before end now ≡ false
        → EndsAfter end g.granted_at
    later_end none order h = tt
    later_end (some t) order h = ground arith

replace-WellFormed :
    (g : AuthorizationGrant) (source : Source) (scopes : List Text) (expires_at : Option Time)
    (now : Time)
    → WellFormed g
    → WellFormed (replace g source scopes expires_at now).0
unfolding replace
replace-WellFormed g source scopes expires_at now w =
    settled Good (parse_source source) _ _ (λ e. w)
      (λ s known.
        checked Good (validate_scopes scopes) _ _ (λ e. w)
          (λ valid.
            guarded Good (is_zero now || (before now g.updated_at || ends_before expires_at now)) _
              _ w
              (λ timely. record {
                scopes_valid = valid;
                begun = ground (arith, timely);
                in_order = omega arith;
                ends = ends_after expires_at now (ground (arith, timely));
                revocation = tt;
              })))

revoke-WellFormed :
    (g : AuthorizationGrant) (now : Time) → WellFormed g → WellFormed (revoke g now).0
unfolding revoke
revoke-WellFormed g now w = guarded Good (is_some g.revoked_at) _ _ w (λ live.
    guarded Good (is_zero now || before now g.updated_at) _ _ w (λ timely. record {
      scopes_valid = w.scopes_valid;
      begun = w.begun;
      in_order = ground (arith, w.in_order);
      ends = w.ends;
      revocation = refl;
    }))

new-WellFormed :
    (id identity client : Uuid) (source : Source) (scopes : List Text) (expires_at : Option Time)
    (now : Time) (g : AuthorizationGrant)
    → new id identity client source scopes expires_at now ≡ ok g
    → WellFormed g
unfolding new
new-WellFormed id identity client source scopes expires_at now g =
    guarded P (not (is_valid_id id) || (not (is_valid_id identity) || not (is_valid_id client))) _ _
      (λ h. cc h)
      (λ known.
        settled P (parse_source source) _ _ (λ e h. cc h)
          (λ s parsed.
            checked P (validate_scopes scopes) _ _ (λ e h. cc h)
              (λ valid.
                guarded P (is_zero now || ends_before expires_at now) _ _ (λ h. cc h)
                  (λ timely h. made (cc h) valid timely))))
  where
    P : Result Error AuthorizationGrant → Type 0
    P r = r ≡ ok g → WellFormed g

    made :
        g ≡ record {
          id = id;
          identity_id = identity;
          oauth_client_id = client;
          source = source;
          scopes = scopes;
          granted_at = now;
          updated_at = now;
          expires_at = expires_at;
          revoked_at = none;
        }
        → validate_scopes scopes ≡ none
        → (is_zero now || ends_before expires_at now) ≡ false
        → WellFormed g
    made e valid timely = rw e (record {
      scopes_valid = valid;
      begun = ground (arith, timely);
      in_order = omega arith;
      ends = ends_after expires_at now (ground (arith, timely));
      revocation = tt;
    })

perform-WellFormed :
    (g : AuthorizationGrant) (c : Call) (now : Time) → WellFormed g → WellFormed (perform g c now).0
unfolding perform
perform-WellFormed g (extends scopes expires_at) now w = extend-WellFormed g scopes expires_at now w
perform-WellFormed g (replaces source scopes expires_at) now w =
    replace-WellFormed g source scopes expires_at now w
perform-WellFormed g revokes now w = revoke-WellFormed g now w

run-WellFormed :
    (g : AuthorizationGrant) (cs : List (Call × Time)) → WellFormed g → WellFormed (run g cs)
unfolding run
run-WellFormed g [] w = w
run-WellFormed g ((c, now) ∷ cs) w =
    run-WellFormed (perform g c now).0 cs (perform-WellFormed g c now w)

-- A grant that `New` makes is well formed after whatever calls: it has at least one scope, none
-- twice and none empty, its times are in order, it ends after it begins, and a revocation is its
-- last change.
new-run-WellFormed :
    (id identity client : Uuid) (source : Source) (scopes : List Text) (expires_at : Option Time)
    (now : Time) (g : AuthorizationGrant) (cs : List (Call × Time))
    → new id identity client source scopes expires_at now ≡ ok g
    → WellFormed (run g cs)
new-run-WellFormed id identity client source scopes expires_at now g cs made =
    run-WellFormed g cs (new-WellFormed id identity client source scopes expires_at now g made)

abbrev pub KeepsRevoked : Call → Type 0
KeepsRevoked (replaces source scopes expires_at) = ⊥
KeepsRevoked _ = Unit
