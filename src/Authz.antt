-- ===== src/Authz.antt =====
-- internal/authz: the per-action policy, its evaluation and its loading.
pub mod Paths
pub mod Policy
pub mod Load
mod Tests
