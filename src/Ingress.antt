-- ===== src/Ingress.antt =====
-- internal/ingress: the request side of the gateway.
pub mod ResolveOnly
pub mod Response
pub mod Readers
pub mod Exchange
pub mod Body
pub mod Fixtures
pub mod Handler
pub mod Server
pub mod Connection
mod Tests
