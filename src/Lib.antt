-- ===== src/Lib.antt =====
-- Careeria: the domain logic of two services of the recruiting platform, `hiring` and `identity`.
--
-- The program. Each service keeps its rules in packages under internal/domain: entities whose
-- methods check a call and change the entity, or return an error. The use cases load an entity,
-- call it and store it; the transport and the packages under packages/go carry requests and
-- events. Modelled are the entities, the use cases of offers, and the packages retry, closer,
-- txmanager, inbox and outbox: an inbox handles each message in a transaction, once, and the
-- worker of an outbox publishes what transactions have left there. An application (a candidate's
-- way through the stages of a vacancy), its interviews and its offer belong to `hiring`; the
-- offer eligibility policy reads the first two, and the use cases of offers change an offer and
-- its application together. To `identity` belong the sign-in (an authorization transaction), the
-- flow that decides its next step, the code and the grant that come of it, a session, the
-- refresh tokens that prolong it, identities with their emails, phones and external accounts,
-- passwords, the second factors, the authentication level of methods, recovery codes, email
-- verification challenges and signing keys.
--
-- Which file models what:
--   * Hiring/Application (Stage, Transition, Errors): services/hiring/internal/domain/application;
--     `new` is New, `change_stage` is ChangeStage and so on. Pipeline has the edges between stages as
--     a relation, History the invariant, Calls sequences of requests.
--   * Hiring/Offer: services/hiring/internal/domain/offer; Lifecycle has its calls and their edges.
--   * Hiring/Interview: services/hiring/internal/domain/interview; Feedbacks has the invariant.
--   * Hiring/Policy: services/hiring/internal/domain/policy.
--   * Hiring/OfferService: services/hiring/internal/usecase/offer, over a record `Ports` of the
--     interfaces of service.go, in the transactions of Packages/Transactions; Storing, Accepting and
--     Expiring have what is left in the store.
--   * Identity/AuthorizationTransaction (Step, Authenticating): services/identity/internal/domain/
--     authorizationtransaction; Calls has sequences of its methods, Changes the step relation that
--     they implement, Budget their number, Invariant and Guarantees what a sign-in has established.
--   * Identity/AuthenticationFlow: authenticationflow beside it; Decisions and Progress.
--   * Identity/AuthorizationGrant: authorizationgrant; Covering, Consent, Merging, History and
--     Revocation.
--   * Identity/AuthorizationCode: authorizationcode, and the nonce of openidconnect.
--   * Identity/Password (Attempts, Secret): password; auth_state.go and credential.go are the children.
--   * Identity/SigningKey: signingkey; Rotation has sequences of its methods.
--   * Identity/RefreshTokenFamily (Token, Errors): services/identity/internal/domain/
--     refreshtokenfamily; `rotate` is Rotate, in the parts `detect_reuse` and `issue_next`.
--     Times, Listing, Revocation, Presenting and Rotation carry the lemmas, Invariant the well-formedness,
--     Safety, SingleUse, Spent and Reuse the consequences for histories of calls.
--   * Identity/Session, Identity/RecoveryCodeSet, Identity/EmailChallenge, Identity/Authentication:
--     the packages session, recoverycodeset, emailverificationchallenge and authentication beside it.
--   * Domain: services/identity/internal/domain/helpers.go, instants and identifiers.
--   * Packages/Retry (Backoff, Predicates, Loop): packages/go/retry; `do_operation` is Do.
--   * Identity/Identities (Contacts, Accounts, Methods): the package identity beside it; a Contact is an
--     email or a phone, whose entities are alike. Renewing, Leading and SettingPrimary have what the
--     methods on one list of contacts keep, Invariant and Keeping what those on the identity keep,
--     Histories and Deletion sequences of methods.
--   * Identity/Mfa (Types, Totp, WebAuthn, Factors): the package mfa beside it. Keeping and Recording
--     have what one method does to its factor, Finding the loops over the factors, Promoting,
--     SettingPrimary, Enrolling and Outcomes what each method leaves; Calls has sequences of methods,
--     Invariant, Growth, Reuse and Single what holds of them.
--   * Packages/Closer: packages/go/closer.
--   * Packages/Transactions: packages/go/txmanager; `do_transaction` is Manager.Do.
--   * Packages/Inbox: packages/go/inbox; Delivery has messages delivered again and again.
--   * Packages/Outbox: packages/go/outbox; Publishing, Holding and Finalizing are about its worker.
--   * Base: Booleans, lists and their loops, results, equality, text and integers that they share.
--   * The modules named Tests evaluate the code at concrete inputs.
--
-- How Go is read:
--   * A method that changes its receiver returns the receiver that it leaves, beside its result; what
--     was assigned before an error is returned stays assigned. A nil receiver has no value here.
--   * An error is a constructor, one for each errors.New; a wrapped error is the error in it.
--   * A time is a natural number of nanoseconds since Go's zero time, a UUID its 128-bit number with
--     uuid.Nil as 0. What uuid.New returns and what the clock says are arguments.
--   * A string is the list of its code points, so that one with invalid UTF-8 has no value. A type
--     of strings with known values is a data type with one more constructor for any other string.
--   * A version is the 64-bit pattern of an int64 and is counted up modulo 2 ^ 64, as are the ints
--     that count attempts. An amount or a score that is not positive is read as 0, which the code treats
--     in the same way.
--   * A map used as a set is the list of the values put in. A loop with an early return is a recursive
--     function on the list. `decimal`, which prints a number n, has n + 1 steps of fuel, where one step
--     drops a digit; the loop of Do has `MaxAttempts` steps, one for each attempt that it may make.
--     The worker of the outbox runs until it is stopped, so its theorem is about any number of rounds.
--   * An int64 that can be negative is a ℤ. The factor of a back-off is computed modulo 2 ^ 64.
--   * What the code takes from outside is a parameter: PKCE.Verify, the check of a public JWK, the
--     repositories, the authorization and the event factory, the context, the driver of the database,
--     the publisher, channels and errors.Is.
--
-- Not modelled: the upper-casing parsers of the hiring enumerations, the parsers of emails,
-- phones and providers, and net/netip, whose text arrives parsed; event payloads, which are
-- plain data; the other use cases, repositories and transport; the other packages of identity
-- and of packages/go; jitter, which is floating point; panics; generated and vendored code.
pub mod Base
pub mod Domain
pub mod Hiring
pub mod Identity
pub mod Packages
