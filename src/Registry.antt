-- ===== src/Registry.antt =====
-- The package registry: versions, signed records, domain ownership and the validation of history.
pub mod Outcome
pub mod Version
pub mod Domain
pub mod Crypto
pub mod Dns
pub mod KeyManager
pub mod Record
pub mod Validator
pub mod Walk
