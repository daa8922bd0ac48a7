-- ===== src/Billing.antt =====
-- Metering and pricing of gateway requests: src/features/gateway/lib and the SKU rules of
-- src/features/api-catalog/lib.
pub mod Meters
pub mod Usage
pub mod Normalize
pub mod Keyed
pub mod LongMeters
pub mod Sku
pub mod SkuCheck
pub mod Spec
pub mod Charge
pub mod Rounding
pub mod Conservation
pub mod Checked
pub mod Numerators
pub mod Priced
pub mod SkuBounds
mod Tests
