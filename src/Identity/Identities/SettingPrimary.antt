-- ===== src/Identity/Identities/SettingPrimary.antt =====
-- `SetPrimaryEmail` and `SetPrimaryPhone` of services/identity/internal/domain/identity/identity.go:
-- what they keep.
use careeria.Base.{
  ℕ, ◌+◌, ◌≡◌, refl, ◌∙◌, Bool, true, false, not, Option, none, some, List, set, is_some, All,
  arith, Result, ok, err, nat_comparable, list_comparable,
}
use careeria.Base.Guards.{guarded, checked, found}
use careeria.Base.Finding.{often, index_where, Found, index_where-Found, set_self, Pairwise}
use careeria.Base.Others.{Spread, each_other-Spread}
use careeria.Domain.{Time, Uuid, is_zero}
use careeria.Identity.Identities.Contacts.{
  Kind, Error, Contact, Effect, is_active, is_usable, is_primary_contact, has_id,
  ensure_change_allowed, promote, demote, demote_others, demoted, promoted_at, set_primary_at,
}
use careeria.Identity.Identities.Renewing.{Late, Renewed, Stays, primary-le}
use careeria.Identity.Identities.Leading.{
  Alike, demote-Takes, values-Pairwise, Late-Pairwise, any-Pairwise, usable-Alike,
}

-- One primary contact among some that are like those before, of which one is active.
Pairwise-Renewed :
    (cs cs' : List Contact) (now : Time)
    → Pairwise (Alike now) cs cs'
    → often is_primary_contact cs' ≡ 1
    → Renewed cs cs' now none
Pairwise-Renewed cs cs' now p single =
    let (actives, same) = any-Pairwise now is_active cs cs' (λ c c' a. a.active) p in
    let (usables, _) = any-Pairwise now is_usable cs cs' (usable-Alike now) p in
    record {
      led = λ l. ground (arith, single, primary-le cs');
      late = λ all. Late-Pairwise now cs cs' p;
      distinct = λ d. rw (values-Pairwise now cs cs' p) d;
      actives = λ h. actives ∙ h;
      usables = λ h. usables ∙ h;
    }

abbrev raised : Contact → Time → Contact
raised c now = record c { is_primary = true; updated_at = now }

abbrev Promoted : Contact → Time → Contact × Result Error Bool → Type 0
Promoted c now (c', err e) = c' ≡ c
Promoted c now (c', ok false) = c' ≡ c
Promoted c now (c', ok true) = (c' ≡ raised c now) × (is_active c ≡ true)

promote-Promoted : (kind : Kind) (c : Contact) (now : Time) → Promoted c now (promote kind c now)
unfolding promote
promote-Promoted kind c now =
    let P = Promoted c now in
    checked P (ensure_change_allowed kind c now) _ _ (λ e. refl)
      (λ timely.
        guarded P (not (is_some c.verified_at)) _ _ refl
          (λ verified. guarded P c.is_primary _ _ refl (λ other. (refl, ground arith))))

module _ (kind : Kind) (cs : List Contact) (id : Uuid) (now : Time) (set_time : is_zero now ≡ false)
    (late : All (Late now) cs) where
  abbrev P : List Contact × Effect → Type 0
  P = Stays cs now none

  demoted-Stays :
      (r : List Contact × Option Error)
      → Spread (Alike now) is_primary_contact cs 1 r
      → P (demoted r)
  demoted-Stays (cs', some e) s = cc s.accepted
  demoted-Stays (cs', none) s = Pairwise-Renewed cs cs' now s.pairwise s.counted

  promoted_at-Stays :
      (i : ℕ) (c : Contact) (r : Contact × Result Error Bool)
      → Found (has_id id) cs i c
      → Promoted c now r
      → P (promoted_at kind cs i now r)
  promoted_at-Stays i c (c', err e) it h = rw h (set_self (has_id id) it)
  promoted_at-Stays i c (c', ok false) it h = rw h (set_self (has_id id) it)
  promoted_at-Stays i c (c', ok true) it h =
      let index : i + 0 ≡ i = omega arith in
      let alike : Alike now c (raised c now) = record {
        active = refl;
        value = refl;
        verified = refl;
        late = omega arith;
      } in
      let others = demote_others kind (set cs i (raised c now)) 0 i now in
      let method = λ (x : Contact). demote kind x now in
      let spread : Spread (Alike now) is_primary_contact cs 1 others = rw index at (
        each_other-Spread method (Alike now) is_primary_contact (Late now)
          (demote-Takes kind now set_time) (raised c now) 0 it late alike (ground (arith, h.1))) in
      rw (h.0) (demoted-Stays others spread)

  pub set_primary_at-Stays : P (set_primary_at kind cs id now)
  unfolding set_primary_at
  set_primary_at-Stays =
      found P (index_where (has_id id) cs) _
        (λ r. promoted_at kind cs r.0 now (promote kind r.1 now)) refl
        (λ r e.
          promoted_at-Stays r.0 r.1 (promote kind r.1 now)
            (index_where-Found (has_id id) cs r.0 r.1 e) (promote-Promoted kind r.1 now))
