-- ===== src/Daemon.antt =====
-- daemon: the server's own modules.
pub mod Auth
pub mod KeyRotation
pub mod ExitNode
pub mod Config
pub mod Emergency
pub mod Billing
pub mod ConnectionRegistry
pub mod ExitNodePool
pub mod ExitForwarder
pub mod Handler
