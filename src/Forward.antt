-- ===== src/Forward.antt =====
-- internal/forward: the forward of a tool call to Control.
pub mod Session
pub mod Commands
pub mod Results
pub mod Calls
pub mod Dial
mod Tests
