-- ===== src/Keypool.antt =====
-- internal/keypool: the keys, their circuit breakers, the selection strategies and the manager.
pub mod CircuitBreaker
pub mod PoolKey
pub mod RoundRobin
pub mod WeightedRoundRobin
pub mod Manager
pub mod Health
pub mod NewManager
pub mod Marks
pub mod Loading
