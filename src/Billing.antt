-- ===== src/Billing.antt =====
-- Billing: app/webhooks/services/billing.py, the state of a workspace of app/core/models.py and the
-- access check of app/webhooks/webhook_router.py.
pub mod Workspaces
pub mod Plans
pub mod Sync
pub mod Handlers
pub mod Invoices
pub mod Rows
pub mod Access
pub mod Convergence
pub mod Tenants
pub mod Payments
pub mod Once
pub mod Checkout
