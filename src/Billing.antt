-- ===== src/Billing.antt =====
-- internal/modules/billing: token prices, the ledger and its buckets, charging, buying, renewing.
pub mod Catalog
pub mod Pricing
pub mod Store
pub mod Tokens
pub mod Conserved
pub mod Charge
pub mod Checkout
pub mod Renewal
pub mod History
pub mod Audit
pub mod Take
pub mod Spend
pub mod Exact
pub mod Frame
pub mod Paid
pub mod Refunds
pub mod Granted
pub mod Cycle
pub mod Replaced
pub mod Retry
