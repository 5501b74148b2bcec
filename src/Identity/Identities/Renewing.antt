-- ===== src/Identity/Identities/Renewing.antt =====
-- What the methods on one list of contacts keep:
-- services/identity/internal/domain/identity/identity.go, email.go and phone.go.
use careeria.Base.{
  ℕ, ◌+◌, ◌≤◌, ◌≡◌, refl, ◌∙◌, Bool, true, false, ◌&&◌, Option, none, some, List, [], ◌∷◌, ◌++◌,
  ◌==◌, set, is_some, All, All-append, Distinct, Distinct-snoc, contains, nat_comparable,
  list_comparable, arith, if◌then◌else◌, ok, Bool-cases, inl, inr, ltb,
}
use careeria.Base.Guards.{guarded, checked, settled, found}
use careeria.Base.Finding.{
  often, often-append, often-set, index_where, Found, here, there, index_where-Found, Found-test,
  set_self, All-set,
}
use careeria.Base.Text.{Text}
use careeria.Domain.{Time, Uuid}
use careeria.Identity.Identities.Contacts.{
  Kind, Error, Contact, Effect, refused, kept, changed, new_contact, is_active, is_usable,
  is_primary_contact, has_id, ensure_change_allowed, verify, remove, add, changed_at, verify_at,
  remove_at, active_count, has_contact, primary_needed,
}
use careeria.Identity.Identities.{any_except}

abbrev pub values : List Contact → List Text
values [] = []
values (c ∷ cs) = c.value ∷ values cs

abbrev pub Late : Time → Contact → Type 0
Late now c = c.updated_at ≤ now

-- One active contact is primary, where there is an active one.
abbrev pub Led : List Contact → Type 0
Led cs = often is_primary_contact cs ≡ (if often is_active cs == 0 then 0 else 1)

-- The list after a change at a time; the contacts that are left without the one at an index are
-- those that may be relied on.
pub record Renewed (cs cs' : List Contact) (now : Time) (skip : Option ℕ) : Type 0 where
  pub led : Led cs → Led cs'
  pub late : All (Late now) cs → All (Late now) cs'
  pub distinct : Distinct (values cs) → Distinct (values cs')
  pub actives : any_except is_active skip cs ≡ true → any_except is_active none cs' ≡ true
  pub usables : any_except is_usable skip cs ≡ true → any_except is_usable none cs' ≡ true

abbrev pub Stays : List Contact → Time → Option ℕ → List Contact × Effect → Type 0
Stays cs now skip (cs', refused e) = cs' ≡ cs
Stays cs now skip (cs', kept) = cs' ≡ cs
Stays cs now skip (cs', changed) = Renewed cs cs' now skip

pub any-append :
    {A : Type 0} (test : A → Bool) (xs ys : List A)
    → any_except test none xs ≡ true
    → any_except test none (xs ++ ys) ≡ true
any-append test [] ys h = cc
any-append test (x ∷ xs) ys h = ground (arith, any-append test xs ys)

pub any-set :
    {A : Type 0} {find : A → Bool} (test : A → Bool) {cs : List A} {i : ℕ} {c : A} (c' : A)
    → Found find cs i c
    → (test c ≡ true → test c' ≡ true)
    → any_except test none cs ≡ true
    → any_except test none (set cs i c') ≡ true
any-set test c' (here {f = c} {fs = cs} h) keep some_one = ground arith
any-set test c' (there {x} {f = c} {fs = cs} {i} miss r) keep some_one =
    ground (arith, any-set test c' r keep)

pub any-skip :
    {A : Type 0} {find : A → Bool} (test : A → Bool) {cs : List A} {i : ℕ} {c : A} (c' : A)
    → Found find cs i c
    → any_except test (some i) cs ≡ true
    → any_except test none (set cs i c') ≡ true
any-skip test c' (here {f = c} {fs = cs} h) some_one = ground arith
any-skip test c' (there {x} {f = c} {fs = cs} {i} miss r) some_one =
    ground (arith, any-skip test c' r)

values-set :
    {find : Contact → Bool} {cs : List Contact} {i : ℕ} {c : Contact} (c' : Contact)
    → Found find cs i c
    → c'.value ≡ c.value
    → values (set cs i c') ≡ values cs
values-set c' (here h) e = rw e
values-set c' (there miss r) e = rw (values-set c' r e)

values-append :
    (cs : List Contact) (c : Contact) → values (cs ++ c ∷ []) ≡ values cs ++ c.value ∷ []
values-append [] c = refl
values-append (x ∷ cs) c = rw (values-append cs c)

contains-values :
    (cs : List Contact) (value : Text) → contains (values cs) value ≡ has_contact value cs
unfolding index_where
contains-values [] value = refl
contains-values (c ∷ cs) value = ground (arith, contains-values cs value)

-- A primary contact is active, so an active one that is not primary is one more.
pub primary-le : (cs : List Contact) → often is_primary_contact cs ≤ often is_active cs
primary-le [] = omega arith
primary-le (c ∷ cs) = ground (arith, primary-le cs)

primary-lt :
    {find : Contact → Bool} {cs : List Contact} {i : ℕ} {c : Contact}
    → Found find cs i c
    → is_active c ≡ true
    → is_primary_contact c ≡ false
    → often is_primary_contact cs + 1 ≤ often is_active cs
primary-lt (here {f = c} {fs = cs} h) on other = ground (arith, primary-le cs)
primary-lt (there {x} {f = c} {fs = cs} {i} miss r) on other = ground (arith, primary-lt r on other)

-- Changing one contact in what neither its state nor its value depends on.
set-Renewed :
    {find : Contact → Bool} {cs : List Contact} {i : ℕ} {c : Contact} (c' : Contact) (now : Time)
    → Found find cs i c
    → is_active c' ≡ is_active c
    → c'.is_primary ≡ c.is_primary
    → c'.value ≡ c.value
    → (is_usable c ≡ true → is_usable c' ≡ true)
    → c'.updated_at ≤ now
    → Renewed cs (set cs i c') now none
set-Renewed {find} {cs} {i} {c} c' now found active primary same usable late =
    let e1 = often-set find is_active c' found in
    let e2 = often-set find is_primary_contact c' found in
    record {
      led = λ l. ground (arith, e1, e2, l);
      late = λ all. All-set find (Late now) c' found all late;
      distinct = λ d. rw (values-set c' found same) d;
      actives = any-set is_active c' found (λ h. active ∙ h);
      usables = any-set is_usable c' found usable;
    }

-- Adding a contact that is active, and primary only if no other is active.
append-Renewed :
    (cs : List Contact) (c : Contact) (now : Time)
    → is_active c ≡ true
    → c.is_primary ≡ (active_count cs == 0)
    → c.updated_at ≤ now
    → has_contact c.value cs ≡ false
    → Renewed cs (cs ++ c ∷ []) now none
append-Renewed cs c now active primary late new_value =
    let e1 = often-append is_active cs c in
    let e2 = often-append is_primary_contact cs c in
    record {
      led = λ l. ground (arith, e1, e2, l);
      late = λ all. All-append (Late now) cs (c ∷ []) all (late, tt);
      distinct = λ d.
          rw (values-append cs c)
            (Distinct-snoc (values cs) c.value d (contains-values cs c.value ∙ new_value));
      actives = any-append is_active cs (c ∷ []);
      usables = any-append is_usable cs (c ∷ []);
    }

-- Removing a contact that is not the primary one of several.
remove-Renewed :
    {find : Contact → Bool} {cs : List Contact} {i : ℕ} {c : Contact} (c' : Contact) (now : Time)
    → Found find cs i c
    → is_active c ≡ true
    → is_active c' ≡ false
    → (is_primary_contact c && ltb 1 (active_count cs)) ≡ false
    → c'.value ≡ c.value
    → c'.updated_at ≤ now
    → Renewed cs (set cs i c') now (some i)
remove-Renewed {find} {cs} {i} {c} c' now found active gone allowed same late =
    let e1 = often-set find is_active c' found in
    let e2 = often-set find is_primary_contact c' found in
    record {
      led = λ l. elim (Bool-cases (is_primary_contact c)) [
        | inl primary ↦ ground (arith, e1, e2, l, primary-le (set cs i c'))
        | inr other ↦ ground (arith, e1, e2, l, primary-lt found active other)
      ];
      late = λ all. All-set find (Late now) c' found all late;
      distinct = λ d. rw (values-set c' found same) d;
      actives = any-skip is_active c' found;
      usables = any-skip is_usable c' found;
    }

new_contact_lem :
    (kind : Kind) (id : Uuid) (value : Text) (primary : Bool) (now : Time) (c : Contact)
    → new_contact kind id value primary now ≡ ok c
    → (is_active c ≡ true) × (c.is_primary ≡ primary) × (c.updated_at ≤ now) × (c.value ≡ value)
unfolding new_contact
new_contact_lem kind id value primary now c h = ground arith

pub add-Stays :
    (kind : Kind) (cs : List Contact) (id : Uuid) (value : Text) (now : Time)
    → Stays cs now none (add kind cs id value now)
unfolding add
add-Stays kind cs id value now =
    let P = Stays cs now none in
    guarded P (has_contact value cs) _ _ refl (λ new_value.
      settled P (new_contact kind id value (active_count cs == 0) now) _ _ (λ e. refl)
        (λ c made.
          let (active, primary, late, same) =
            new_contact_lem kind id value (active_count cs == 0) now c made in
          append-Renewed cs c now active primary late (rw same new_value)))

pub verify_at-Stays :
    (kind : Kind) (cs : List Contact) (id : Uuid) (now : Time)
    → Stays cs now none (verify_at kind cs id now)
unfolding verify_at verify
verify_at-Stays kind cs id now =
    let P = Stays cs now none in
    found P (index_where (has_id id) cs) _ (λ r. changed_at cs r.0 (verify kind r.1 now)) refl
      (λ r e.
        let it = index_where-Found (has_id id) cs r.0 r.1 e in
        let back = set_self (has_id id) it in
        let Q = λ (v : Contact × Option Error). Stays cs now none (changed_at cs r.0 v) in
        checked Q (ensure_change_allowed kind r.1 now) _ _ (λ e. back)
          (λ timely.
            guarded Q (is_some r.1.verified_at) _ _ back
              (λ new. set-Renewed _ now it refl refl refl (λ h. ground arith) (omega arith))))

-- As `Stays`, where the contact that is taken away was found to be removable.
abbrev pub Removes : List Contact → Time → (ℕ → Option Error) → List Contact × Effect → Type 0
Removes cs now removable (cs', refused e) = cs' ≡ cs
Removes cs now removable (cs', kept) = cs' ≡ cs
Removes cs now removable (cs', changed) =
    (i : ℕ) × (removable i ≡ none) × Renewed cs cs' now (some i)

pub remove_at-Removes :
    (kind : Kind) (removable : ℕ → Option Error) (cs : List Contact) (id : Uuid) (now : Time)
    → Removes cs now removable (remove_at kind removable cs id now)
unfolding remove_at remove
remove_at-Removes kind removable cs id now =
    let P = Removes cs now removable in
    found P (index_where (has_id id) cs) _
      (λ r.
        if is_primary_contact r.1 && ltb 1 (active_count cs)
        then (cs, refused (primary_needed kind))
        else elim (removable r.0) [
          | some e ↦ (cs, refused e)
          | none ↦ changed_at cs r.0 (remove kind r.1 now)
        ])
      refl
      (λ r e.
        let it = index_where-Found (has_id id) cs r.0 r.1 e in
        let back = set_self (has_id id) it in
        let hit = Found-test (has_id id) it in
        guarded P (is_primary_contact r.1 && ltb 1 (active_count cs)) _ _ refl (λ spare.
          checked P (removable r.0) _ _ (λ e. refl)
            (λ allowed.
              let Q = λ (v : Contact × Option Error). P (changed_at cs r.0 v) in
              checked Q (ensure_change_allowed kind r.1 now) _ _ (λ e. back)
                (λ timely. (
                  r.0,
                  allowed,
                  remove-Renewed _ now it (ground arith) refl spare refl (omega arith),
                )))))
