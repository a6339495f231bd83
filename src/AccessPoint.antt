-- ===== src/AccessPoint.antt =====
-- src/ap: the access point.
pub mod Requests
pub mod State
pub mod Configuration
pub mod Lifecycle
pub mod Mld
pub mod Handshake
pub mod GroupKeys
pub mod Pmksa
pub mod Maintenance
pub mod Tick
pub mod Data
pub mod Roaming
pub mod Management
pub mod Sessions
pub mod Authentication
