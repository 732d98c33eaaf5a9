-- ===== src/Examples.antt =====
-- Runs of the models on concrete data, and instances of the theorems. The caches are those in memory
-- of `Cache.Memory`.
mod Limits
mod Breaker
mod Consolidation
mod Billing
mod Members
mod Queue
mod Delivery
mod Router
mod Subscriptions
