-- ===== src/Bridge.antt =====
-- The wire protocol of the bridge to the engine and the client that speaks it, in
-- bridge/crates/norves-bridge-core/src and bridge/crates/norves-bridge-editor-client/src.
pub mod Envelope
pub mod Correlation
pub mod Dispatcher
pub mod Reconnect
