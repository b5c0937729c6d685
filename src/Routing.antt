-- ===== src/Routing.antt =====
-- src/modules/routing.rs: the routing of one client, and of all that share the tables.
pub mod Backoff
pub mod Ipv6Cache
pub mod Resolve
pub mod Client
pub mod System
