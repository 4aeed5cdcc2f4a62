-- ===== src/Portal.antt =====
-- src/rrportal: the sessions of the clients.
pub mod Backend
pub mod Messages
pub mod Decimal
pub mod Session
pub mod Startup
