-- ===== src/DirectProxy.antt =====
-- internal/directproxy: the relay of client connections.
pub mod Throttle
