-- ===== src/Hiring.antt =====
-- services/hiring/internal/domain: applications, interviews, offers and the offer policy.
pub mod Application
pub mod Offer
pub mod OfferService
pub mod Interview
pub mod Policy
