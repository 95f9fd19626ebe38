-- ===== src/Crypto.antt =====
-- app/crypto: the secure channel of a profile download, signatures, the chain of certificates
-- of an eUICC and the validation of a server's.
pub mod Scp03t
pub mod Padding
pub mod Channel
pub mod Certificates
pub mod Initialize
pub mod Chain
pub mod CertValidator
pub mod Validation
pub mod EcdsaEngine
pub mod Signatures
