-- ===== src/Media.antt =====
-- The media gateway, src/mod/gateways/mod_media.
pub mod Echo
pub mod Types
pub mod Sockets
pub mod Sessions
pub mod Lbo
pub mod Routing
pub mod Signalling
mod Sample
