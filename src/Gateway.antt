-- ===== src/Gateway.antt =====
-- The request path of the gateway: src/features/gateway/server and the parts of
-- src/features/gateway/lib that are not pricing.
pub mod Endpoints
pub mod Requests
pub mod Admission
pub mod Settlement
pub mod Charging
pub mod Once
pub mod Lifecycle
pub mod Finality
pub mod Forward
pub mod ForwardPriced
pub mod Settles
mod Tests
