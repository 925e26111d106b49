-- ===== src/Proxy.antt =====
-- The crate `tailsvc-proxy` (crates/tailsvc-proxy/src): the table of routes, and what the proxy
-- answers before and after it talks to a backend.
pub mod Routes
pub mod Handle
pub mod WebSocket
mod Tests
