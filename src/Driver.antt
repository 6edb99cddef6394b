-- ===== src/Driver.antt =====
-- pkg/driver: the CSI services.
pub mod Guard
pub mod Calls
pub mod Params
pub mod Env
pub mod Capability
pub mod CreateVolume
pub mod Volumes
pub mod Snapshots
pub mod Rpc
pub mod Node
pub mod Identity
pub mod Settings
pub mod Server
