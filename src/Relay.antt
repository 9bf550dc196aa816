-- ===== src/Relay.antt =====
-- The settings of SONOFF relays (internal/hub/relay.go).
pub mod Codec
pub mod Call
pub mod Exchange
pub mod Patch
pub mod Settings
