-- ===== src/Controller.antt =====
-- crates/tailsvc-controller: the configuration, the admin sessions, and the handlers of the HTTP API
-- over the database and the DNS registry.
pub mod Config
pub mod Sessions
pub mod State
pub mod Agents
pub mod Admin
pub mod Probe
pub mod Overview
pub mod Router
pub mod Supervise
pub mod Backup
pub mod System
mod Tests
