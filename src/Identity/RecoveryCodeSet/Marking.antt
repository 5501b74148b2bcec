-- ===== src/Identity/RecoveryCodeSet/Marking.antt =====
-- One use of a recovery code, by its outcome:
-- services/identity/internal/domain/recoverycodeset/recovery_code_set.go.
use careeria.Base.{
  ℕ, ◌+◌, ◌≡◌, refl, Bool, true, false, ◌||◌, none, some, List, [], ◌∷◌, ◌==◌, if◌then◌else◌,
  is_some, arith, set, Result, ok, err, Bool-cases, Option-cases, inl, inr,
}
use careeria.Domain.{Time, Uuid, is_zero, before}
use careeria.Identity.RecoveryCodeSet.{
  Error, UseOutcome, RecoveryCode, RecoveryCodeSet, code_index, unused_code_count, use_one,
  use_found, use_code, changed_at, latest_changed_at, over,
}

-- Whether the code that `code_index` finds was used.
abbrev pub spent : List RecoveryCode → Uuid → Bool
spent [] id = false
spent (c ∷ cs) id = let rest = spent cs id in if c.id == id then is_some c.used_at else rest

-- What the list of the codes is once the code found at an index was used.
pub record Marked (cs cs' : List RecoveryCode) (id : Uuid) : Type 0 where
  pub fewer : unused_code_count cs' + 1 ≡ unused_code_count cs
  pub marked : spent cs' id ≡ true
  pub kept : (other : Uuid) → spent cs other ≡ true → spent cs' other ≡ true

use-Marked :
    (cs : List RecoveryCode) (id : Uuid) (index : ℕ) (c : RecoveryCode) (now : Time)
    → code_index cs id ≡ some (index, c)
    → c.used_at ≡ none
    → Marked cs (set cs index (record c { used_at = some now })) id
unfolding code_index
use-Marked [] id index c now found unused = cc
use-Marked (x ∷ cs) id index c now found unused = elim (Bool-cases (x.id == id)) [
  | inl hit ↦ record { fewer = ground arith; marked = ground arith; kept = λ other h. ground arith }
  | inr miss ↦ elim (Option-cases (code_index cs id)) [
    | inl e ↦ ground arith
    | inr ((i, y), e) ↦
        let deeper = use-Marked cs id i y now e (ground arith) in
        record {
          fewer = ground (arith, deeper.fewer);
          marked = ground (arith, deeper.marked);
          kept = λ other h. ground (arith, deeper.kept other);
        }
  ]
]

spent-found :
    (cs : List RecoveryCode) (id : Uuid) (index : ℕ) (c : RecoveryCode)
    → code_index cs id ≡ some (index, c)
    → spent cs id ≡ is_some c.used_at
unfolding code_index
spent-found [] id index c found = cc
spent-found (x ∷ cs) id index c found = elim (Bool-cases (x.id == id)) [
  | inl hit ↦ ground arith
  | inr miss ↦ elim (Option-cases (code_index cs id)) [
    | inl e ↦ ground arith
    | inr ((i, y), e) ↦ ground (arith, spent-found cs id i y e)
  ]
]

-- Whether a code was accepted.
unfoldable pub accepted : Result Error UseOutcome → Bool
accepted (ok o) = true
accepted (err e) = false

-- What a use does: nothing, or it spends a code that was not spent, and disables the set where it
-- was the last.
pub record Accepts (s s' : RecoveryCodeSet) (id : Uuid) : Type 0 where
  pub unspent : spent s.codes id ≡ false
  pub marks : Marked s.codes s'.codes id
  pub enabled : s.disabled_at ≡ none
  pub last : unused_code_count s'.codes ≡ 0 → is_some s'.disabled_at ≡ true

pub data Use (s : RecoveryCodeSet) (id : Uuid)
    : RecoveryCodeSet × Result Error UseOutcome → Type 0 where
  refuses : {e : Error} → Use s id (s, err e)
  accepts : {s' : RecoveryCodeSet} {o : UseOutcome} → Accepts s s' id → Use s id (s', ok o)

-- The code found at an index, used.
abbrev use_at : RecoveryCodeSet → ℕ → RecoveryCode → Time → List RecoveryCode
use_at s index c now = set s.codes index (record c { used_at = some now })

use_found-Use :
    (s : RecoveryCodeSet) (id : Uuid) (index : ℕ) (c : RecoveryCode) (now : Time)
    → s.disabled_at ≡ none
    → code_index s.codes id ≡ some (index, c)
    → Use s id (use_found s index c now)
unfolding use_found use_one
use_found-Use s id index c now enabled found =
    elim (Bool-cases (is_zero now || before now (changed_at c))) [
      | inl early ↦ rw (use_found, use_one, early) refuses
      | inr late ↦ elim (Bool-cases (is_some c.used_at)) [
        | inl gone ↦ rw (use_found, use_one, late, gone) refuses
        | inr unused ↦
            let marks = use-Marked s.codes id index c now found (ground arith) in
            let unspent : spent s.codes id ≡ false =
              ground (arith, spent-found s.codes id index c found) in
            let one : use_one c now ≡ (record c { used_at = some now }, none) = ground arith in
            elim (Bool-cases (unused_code_count (use_at s index c now) == 0)) [
              | inl empty ↦
                  rw (use_found, one, one, empty)
                    (accepts (record {
                      unspent = unspent;
                      marks = marks;
                      enabled = enabled;
                      last = λ h. refl;
                    }))
              | inr more ↦
                  rw (use_found, one, one, more)
                    (accepts (record {
                      unspent = unspent;
                      marks = marks;
                      enabled = enabled;
                      last = λ h. ground arith;
                    }))
            ]
      ]
    ]

pub use_code-Use : (s : RecoveryCodeSet) (id : Uuid) (now : Time) → Use s id (use_code s id now)
unfolding use_code
use_code-Use s id now = elim (Bool-cases (is_zero now || before now (latest_changed_at s))) [
  | inl early ↦ rw (use_code, early) refuses
  | inr late ↦ elim (Bool-cases (is_some s.disabled_at)) [
    | inl off ↦ rw (use_code, late, off) refuses
    | inr enabled ↦ elim (Bool-cases (over s.expires_at now)) [
      | inl o ↦ rw (use_code, late, enabled, o) refuses
      | inr live ↦ elim (Option-cases (code_index s.codes id)) [
        | inl missing ↦ rw (use_code, late, enabled, live, missing) refuses
        | inr ((index, c), found) ↦
            rw (use_code, late, enabled, live, found)
              (use_found-Use s id index c now (ground arith) found)
      ]
    ]
  ]
]
