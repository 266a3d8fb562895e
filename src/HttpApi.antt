-- ===== src/HttpApi.antt =====
-- internal/httpapi: the request handler with its admission, and the listener with its limit.
pub mod Handler
pub mod Listener
