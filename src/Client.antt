-- ===== src/Client.antt =====
-- internal/client: the transport-neutral resources, their messages and the calls of the services.
pub mod Resources
pub mod Errors
pub mod Paths
pub mod Messages
pub mod Convert
pub mod PubSub
pub mod Endpoint
pub mod Retry
pub mod Connect
pub mod Storage
pub mod Samples
mod Tests
