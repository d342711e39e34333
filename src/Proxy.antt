-- ===== src/Proxy.antt =====
-- internal/proxy: what the HTTP handler of the data path does with a request.
pub mod Body
pub mod Handler
