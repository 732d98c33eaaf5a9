-- ===== src/Limits.antt =====
-- The monthly limits of a workspace: app/webhooks/services/rate_limiter.py, and the alerts of
-- app/core/services/usage_alerts.py.
pub mod Breaker
pub mod Fallback
pub mod Alerts
pub mod Limiter
