-- ===== src/Kms.antt =====
-- internal/kms: managers of the master key, and the format of what is stored.
pub mod Format
pub mod Trim
pub mod File
pub mod Manager
pub mod Hsm
pub mod Config
pub mod Pkcs11
pub mod Aws
pub mod Azure
pub mod Tests
