-- ===== src/Config.antt =====
-- internal/config: the loaders of the key set and of the provisioning policy.
pub mod KeySet
pub mod Provisioning
mod Tests
