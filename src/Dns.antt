-- ===== src/Dns.antt =====
-- The crate `tailsvc-dns` (crates/tailsvc-dns/src): the registry of names, the cache of upstream
-- answers and the server. A record type is its number (1 is A, 28 is AAAA); an instant is a number
-- of nanoseconds.
pub mod Registry
pub mod Cache
pub mod Server
pub mod Tcp
mod Tests
