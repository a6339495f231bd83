-- ===== src/Tests.antt =====
-- The properties applied to concrete inputs.
mod Messages
mod Crypto
mod Requests
mod Station
mod Limits
mod Downlink
mod AccessPoint
mod Frames
