-- ===== src/Net/Strategy.antt =====
-- The pool strategies of base/net/stratum/strategies/: what they exchange with their clients
-- (IClient) and their listener (IStrategyListener) is in `Effect`.
pub mod Effect
pub mod Run
pub mod Failover
pub mod SinglePool
pub mod Histories
mod Tests
