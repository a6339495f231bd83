-- ===== src/Crypto.antt =====
-- src/auth/crypto.rs: the cryptographic constructions on the parameters of BlockCipher and Digests.
pub mod Xor
pub mod Kdf
pub mod KeyWrap
pub mod Ccm
pub mod Cmac
