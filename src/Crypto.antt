-- ===== src/Crypto.antt =====
-- src/crypto: the RC4 cipher and the RSA wrap of its key.
pub mod Xor
pub mod Rc4
pub mod Rsa
pub mod Bigint
