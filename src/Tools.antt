-- ===== src/Tools.antt =====
-- Conversions, parsers (base/tools) and counters (backend/common).
pub mod Cvt
pub mod BlobReader
pub mod BlockTemplate
pub mod Json
pub mod WalletAddress
pub mod Hashrate
