-- ===== src/Packages/Retry.antt =====
-- packages/go/retry: backoff.go, predicate.go and retry.go, in the children.
pub mod Backoff
pub mod Loop
pub mod Predicates
mod Tests
