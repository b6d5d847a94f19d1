-- ===== src/Tests.antt =====
-- Runs of the model on small inputs.
pub mod Samples
pub mod History
pub mod Bridge
pub mod LogBuffer
pub mod Mcp
pub mod Broker
pub mod Permits
pub mod Connections
pub mod Authentication
