-- ===== src/Identity/Mfa/Reuse.antt =====
-- What two accepted uses of one factor have in common: the methods of
-- services/identity/internal/domain/mfa/mfa.go called in any order between them.
use careeria.Base.{ℕ, ◌≡◌, refl, Bool, true, false, Option, none, some, List, arith, is_some, subst}
use careeria.Base.Int.{ℤ, pos, ◌≤ℤ◌, int_leb}
use careeria.Domain.{Time, Uuid}
use careeria.Identity.Mfa.Types.{Error}
use careeria.Identity.Mfa.Totp.{replays}
use careeria.Identity.Mfa.Factors.{Factor, has_id, record_totp_use, record_web_authn_use}
use careeria.Identity.Mfa.Keeping.{
  Persists, Behind, Behind-refl, Behind-trans, last_step, sign_count,
}
use careeria.Identity.Mfa.Recording.{
  RecordedTotp, record_totp_use-RecordedTotp, rolls_back, RecordedCount,
  record_web_authn_use-RecordedCount,
}
use careeria.Base.Finding.{Found, Found-test, Found-set, Found-unique}
use careeria.Identity.Mfa.Growth.{run-Grown, Found-Later}
use careeria.Identity.Mfa.Outcomes.{on_factor-rule}
use careeria.Identity.Mfa.Calls.{Call, run}
use careeria.Identity.Mfa.{Mfa, put, change_at, record_totp_factor_use, record_web_authn_factor_use}

-- The factor found has a mark that is not behind.
record Marked (m : Mfa) (id : Uuid) (mark : Factor → Option ℤ) (value : ℤ) : Type 0 where
  pub index : ℕ
  pub factor : Factor
  pub found : Found (has_id id) m.factors index factor
  pub reached : Behind (some value) (mark factor)

-- What a method that records a use leaves, where it reports no error.
abbrev Leaves : Uuid → (Factor → Option ℤ) → ℤ → Mfa × Option Error → Type 0
Leaves id mark value r = r.1 ≡ none → Marked r.0 id mark value

change_at-Leaves :
    (m : Mfa) (id : Uuid) (mark : Factor → Option ℤ) (value : ℤ) (i : ℕ) (f f' : Factor)
    → Found (has_id id) m.factors i f
    → f'.id ≡ f.id
    → Behind (some value) (mark f')
    → Marked (put m i f') id mark value
change_at-Leaves m id mark value i f f' found same reached = record {
  index = i;
  factor = f';
  found = Found-set (has_id id) f' found (ground (arith, Found-test (has_id id) found));
  reached = reached;
}

module _ (m : Mfa) (id : Uuid) where
  mark_stays :
      (mark : Factor → Option ℤ) (value : ℤ) (cs : List (Call × Time))
      → ((f g : Factor) → Persists f g → Behind (mark f) (mark g))
      → Marked m id mark value
      → Marked (run m cs) id mark value
  mark_stays mark value cs grows h =
      let l = Found-Later (run m cs).factors h.found (run-Grown m cs) in
      record {
        index = h.index;
        factor = l.factor;
        found = l.found;
        reached =
            Behind-trans (some value) (mark h.factor) (mark l.factor) h.reached
              (grows h.factor l.factor l.persists);
      }

  record_totp_factor_use-Leaves :
      (step : ℤ) (now : Time) → Leaves id last_step step (record_totp_factor_use m id step now)
  unfolding record_totp_factor_use
  record_totp_factor_use-Leaves step now =
      on_factor-rule (Leaves id last_step step) m id now _ (λ e h. cc)
        (λ i f found set_time late.
          go i f (record_totp_use f step now) found
            (record_totp_use-RecordedTotp f false false now step))
    where
      go :
          (i : ℕ) (f : Factor) (r : Factor × Option Error)
          → Found (has_id id) m.factors i f
          → RecordedTotp f false false now step r
          → Leaves id last_step step (change_at m i r)
      go i f (f', some e) found h k = cc
      go i f (f', none) found h k =
          change_at-Leaves m id last_step step i f f' found h.0.persists.same_id
            (rw h.1 (Behind-refl (some step)))

  totp-refused :
      (step step' : ℤ) (now : Time)
      → Marked m id last_step step
      → step' ≤ℤ step
      → is_some (record_totp_factor_use m id step' now).1 ≡ true
  unfolding record_totp_factor_use
  totp-refused step step' now h behind =
      on_factor-rule (λ r. is_some r.1 ≡ true) m id now _ (λ e. refl)
        (λ i f found set_time late.
          go i f (record_totp_use f step' now) (Found-unique (has_id id) h.found found)
            (record_totp_use-RecordedTotp f false false now step'))
    where
      replayed : (last : Option ℤ) → Behind (some step) last → replays step' last ≡ true
      replayed none b = absurd b
      replayed (some last) b = ground arith

      go :
          (i : ℕ) (f : Factor) (r : Factor × Option Error)
          → h.factor ≡ f
          → RecordedTotp f false false now step' r
          → is_some (change_at m i r).1 ≡ true
      go i f (f', some e) same k = refl
      go i f (f', none) same k =
          let old = subst (λ g. Behind (some step) (last_step g)) same h.reached in
          cc (replayed (last_step f) old, k.2)

  record_web_authn_factor_use-Leaves :
      (value : ℤ) (backup : Bool) (now : Time)
      → Leaves id sign_count value (record_web_authn_factor_use m id value backup now)
  unfolding record_web_authn_factor_use
  record_web_authn_factor_use-Leaves value backup now =
      on_factor-rule (Leaves id sign_count value) m id now _ (λ e h. cc)
        (λ i f found set_time late.
          go i f (record_web_authn_use f value backup now) found
            (record_web_authn_use-RecordedCount f false false now value backup))
    where
      go :
          (i : ℕ) (f : Factor) (r : Factor × Option Error)
          → Found (has_id id) m.factors i f
          → RecordedCount f false false now value r
          → Leaves id sign_count value (change_at m i r)
      go i f (f', some e) found h k = cc
      go i f (f', none) found h k =
          change_at-Leaves m id sign_count value i f f' found h.0.persists.same_id h.1

  web_authn-refused :
      (value value' : ℤ) (backup : Bool) (now : Time)
      → int_leb value (pos 0) ≡ false
      → Marked m id sign_count value
      → value' ≤ℤ value
      → is_some (record_web_authn_factor_use m id value' backup now).1 ≡ true
  unfolding record_web_authn_factor_use
  web_authn-refused value value' backup now counting h behind =
      on_factor-rule (λ r. is_some r.1 ≡ true) m id now _ (λ e. refl)
        (λ i f found set_time late.
          go i f (record_web_authn_use f value' backup now) (Found-unique (has_id id) h.found found)
            (record_web_authn_use-RecordedCount f false false now value' backup))
    where
      rolled : (last : Option ℤ) → Behind (some value) last → rolls_back value' last ≡ true
      rolled none b = absurd b
      rolled (some last) b = ground arith

      go :
          (i : ℕ) (f : Factor) (r : Factor × Option Error)
          → h.factor ≡ f
          → RecordedCount f false false now value' r
          → is_some (change_at m i r).1 ≡ true
      go i f (f', some e) same k = refl
      go i f (f', none) same k =
          let old = subst (λ g. Behind (some value) (sign_count g)) same h.reached in
          cc (rolled (sign_count f) old, k.2)

-- Once a TOTP factor accepted a time step, it refuses this time step and every earlier one,
-- whatever calls of the MFA configuration come between: a code is accepted at most once.
pub totp_single_use :
    (m : Mfa) (id : Uuid) (step step' : ℤ) (now later : Time) (cs : List (Call × Time))
    → (record_totp_factor_use m id step now).1 ≡ none
    → step' ≤ℤ step
    → is_some
        (record_totp_factor_use (run (record_totp_factor_use m id step now).0 cs) id step' later).1
      ≡ true
totp_single_use m id step step' now later cs accepted behind =
    let m' = (record_totp_factor_use m id step now).0 in
    totp-refused (run m' cs) id step step' later
      (mark_stays m' id last_step step cs (λ f g p. p.steps)
        (record_totp_factor_use-Leaves m id step now accepted))
      behind

-- Once a WebAuthn factor accepted a positive signature counter, it refuses every use whose counter
-- is not above it, whatever calls of the MFA configuration come between.
pub web_authn_counter_increases :
    (m : Mfa) (id : Uuid) (value value' : ℤ) (backup backup' : Bool) (now later : Time)
    (cs : List (Call × Time))
    → (record_web_authn_factor_use m id value backup now).1 ≡ none
    → int_leb value (pos 0) ≡ false
    → value' ≤ℤ value
    → is_some
        (record_web_authn_factor_use
          (run (record_web_authn_factor_use m id value backup now).0 cs)
          id
          value'
          backup'
          later).1
      ≡ true
web_authn_counter_increases m id value value' backup backup' now later cs accepted counting behind =
    let m' = (record_web_authn_factor_use m id value backup now).0 in
    web_authn-refused (run m' cs) id value value' backup' later counting
      (mark_stays m' id sign_count value cs (λ f g p. p.counts)
        (record_web_authn_factor_use-Leaves m id value backup now accepted))
      behind
