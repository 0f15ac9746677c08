-- ===== src/Go.antt =====
-- What the program uses of Go's standard library, and the state that its effects act on.
pub mod Base64
pub mod Hex
pub mod Strings
pub mod Gcm
pub mod World
