-- ===== src/Net/Strategy/Histories.antt =====
-- What FailoverStrategy.cpp and SinglePoolStrategy.cpp guarantee over any history of calls.
use rxs_supported.Common.{List, All}
use rxs_supported.Net.Strategy.Effect.{Event, From}
use rxs_supported.Net.Strategy.Run.{run, run-Keeps, Keeps}
use rxs_supported.Net.Strategy.Failover.{Failover}
use rxs_supported.Net.Strategy.Failover.Invariant.{IsValid, failover}
use rxs_supported.Net.Strategy.SinglePool.{SinglePool, single_pool}

-- Over any history of calls that come from its own clients, the failover strategy stays valid
-- (`m_index` names a client, and an active client is the one that it names), the client that the
-- listener was last told of is the active one, and every call goes to a client of the list.
pub failover-Keeps :
    (P : Type 0) (s : Failover) (es : List (Event P))
    → IsValid s
    → All (From s.pools) es
    → Keeps (failover P) s (run (failover P) s es)
failover-Keeps P s es v h = run-Keeps (failover P) s es v h

-- Over any history of calls that come from its client, the client that the single pool strategy's
-- listener was last told of is the active one, and no other client is called.
single_pool-Keeps :
    (P : Type 0) (s : SinglePool) (es : List (Event P))
    → All (From 1) es
    → Keeps (single_pool P) s (run (single_pool P) s es)
single_pool-Keeps P s es h = run-Keeps (single_pool P) s es tt h
