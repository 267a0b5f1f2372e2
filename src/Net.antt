-- ===== src/Net.antt =====
-- Network tools, jobs and pool strategies (base/net).
pub mod LineReader
pub mod Strategy
pub mod Job
pub mod NetworkState
pub mod Socks5
pub mod Url
pub mod Client
