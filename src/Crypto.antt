-- ===== src/Crypto.antt =====
-- internal/crypto/keyring.go: the keyring that seals relay passwords.
pub mod Keyring
pub mod Secret
pub mod Seal
