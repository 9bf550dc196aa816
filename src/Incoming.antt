-- ===== src/Incoming.antt =====
-- What arrives from devices (internal/hub/incoming.go).
pub mod Listener
pub mod Parse
pub mod Press
pub mod Action
pub mod Reports
pub mod Handle
