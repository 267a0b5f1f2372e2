-- ===== src/Crypto.antt =====
-- RandomX datasets and their background initialisation (crypto/rx), nonces and memory
-- (crypto/common).
pub mod RxSeed
pub mod RxBasicStorage
pub mod RxQueue
pub mod Nonce
pub mod MemoryPool
pub mod Algorithm
