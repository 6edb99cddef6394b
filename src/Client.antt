-- ===== src/Client.antt =====
-- pkg/client: the client of the backend.
pub mod Sdk
pub mod Volume
pub mod SnapshotList
pub mod Snapshots
pub mod Acl
pub mod Policy
pub mod Create
pub mod Delete
pub mod System
pub mod IpPool
pub mod Host
pub mod Format
pub mod Mount
pub mod ExpandFs
pub mod Login
pub mod Connect
