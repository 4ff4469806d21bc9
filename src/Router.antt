-- ===== src/Router.antt =====
-- The controller's connection to a router: controller/router.c.
pub mod State
pub mod Features
pub mod Addresses
pub mod Packet
pub mod Routes
pub mod Replies
pub mod Tests
