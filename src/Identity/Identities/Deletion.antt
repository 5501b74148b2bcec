-- ===== src/Identity/Identities/Deletion.antt =====
-- An identity after `Delete` of services/identity/internal/domain/identity/identity.go.
use careeria.Base.{
  ◌≡◌, refl, Bool, true, ◌||◌, Option, none, some, List, [], ◌∷◌, is_some, arith, nat_comparable,
  list_comparable,
}
use careeria.Domain.{Time}
use careeria.Identity.Identities.Contacts.{Error, invalid_status}
use careeria.Identity.Identities.Methods.{
  add_email, verify_email, set_primary_email, remove_email, add_phone, verify_phone,
  set_primary_phone, remove_phone, link_external_account, record_external_authentication,
  disable_external_account, enable_external_account, unlink_external_account,
}
use careeria.Identity.Identities.{
  Identity, deleted, status_equal, activate, disable, enable, delete, guarded_change,
}
use careeria.Identity.Identities.Histories.{
  Call, activates, disables, enables, deletes, adds_email, adds_phone, verifies_email,
  sets_primary_email, removes_email, verifies_phone, sets_primary_phone, removes_phone, links,
  records, disables_account, enables_account, unlinks, perform, run,
}

-- Whether the identity is deleted, as its methods test it.
abbrev pub is_deleted : Identity → Bool
is_deleted i = status_equal i.status deleted || is_some i.deleted_at

guarded_change-deleted :
    (i : Identity) (now : Time) (rest : Identity × Option Error)
    → is_deleted i ≡ true
    → (guarded_change i now rest ≡ (i, some invalid_status))
unfolding guarded_change
guarded_change-deleted i now rest h = rw (guarded_change, h)

perform-deleted :
    (i : Identity) (c : Call) (now : Time)
    → is_deleted i ≡ true
    → perform i c now ≡ (i, some invalid_status)
unfolding perform add_email verify_email set_primary_email remove_email add_phone verify_phone
    set_primary_phone remove_phone link_external_account record_external_authentication
    disable_external_account enable_external_account unlink_external_account activate enable disable
    delete
perform-deleted i activates now h = guarded_change-deleted i now _ h
perform-deleted i disables now h = guarded_change-deleted i now _ h
perform-deleted i enables now h = guarded_change-deleted i now _ h
perform-deleted i deletes now h = guarded_change-deleted i now _ h
perform-deleted i (adds_email id value) now h = guarded_change-deleted i now _ h
perform-deleted i (adds_phone id value) now h = guarded_change-deleted i now _ h
perform-deleted i (verifies_email id) now h = guarded_change-deleted i now _ h
perform-deleted i (sets_primary_email id) now h = guarded_change-deleted i now _ h
perform-deleted i (removes_email id) now h = guarded_change-deleted i now _ h
perform-deleted i (verifies_phone id) now h = guarded_change-deleted i now _ h
perform-deleted i (sets_primary_phone id) now h = guarded_change-deleted i now _ h
perform-deleted i (removes_phone id) now h = guarded_change-deleted i now _ h
perform-deleted i (links id provider subject) now h = guarded_change-deleted i now _ h
perform-deleted i (records id) now h = guarded_change-deleted i now _ h
perform-deleted i (disables_account id) now h = guarded_change-deleted i now _ h
perform-deleted i (enables_account id) now h = guarded_change-deleted i now _ h
perform-deleted i (unlinks id) now h = guarded_change-deleted i now _ h

run-deleted : (i : Identity) (cs : List (Call × Time)) → is_deleted i ≡ true → run i cs ≡ i
unfolding run
run-deleted i [] h = refl
run-deleted i ((c, now) ∷ cs) h = rw (perform-deleted i c now h) (run-deleted i cs h)

-- Once `Delete` reported no error, every later call reports that the status does not allow it, and
-- the identity stays as `Delete` left it.
deleted_absorbs :
    (i : Identity) (now later : Time) (cs : List (Call × Time)) (c : Call)
    → (delete i now).1 ≡ none
    → (run (delete i now).0 cs ≡ (delete i now).0)
      × (perform (run (delete i now).0 cs) c later ≡ ((delete i now).0, some invalid_status))
unfolding delete guarded_change
deleted_absorbs i now later cs c accepted =
    let gone : is_deleted (delete i now).0 ≡ true = ground arith in
    let stays = run-deleted (delete i now).0 cs gone in
    (stays, rw stays (perform-deleted (delete i now).0 c later gone))
