-- ===== src/Common.antt =====
-- The crate `tailsvc-common` (crates/tailsvc-common/src): hostnames, backends, labels, secrets and
-- the errors that they share.
pub mod Errors
pub mod Hostname
pub mod Backend
pub mod Labels
pub mod Auth
pub mod Api
mod Tests
