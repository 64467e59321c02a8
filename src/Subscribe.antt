-- ===== src/Subscribe.antt =====
-- src/subscribe/: the subscriber's side of the mesh.
pub mod Balancer
pub mod Proxy
pub mod Http
pub mod Manager
pub mod Listener
pub mod Tunnels
pub mod Api
