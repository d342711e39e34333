-- ===== src/Routing.antt =====
-- internal/routing: the hash ring and the decision to serve or to forward.
pub mod Ring
pub mod Forwarder
