-- ===== src/Common.antt =====
-- pkg/common: what the client and the driver share.
pub mod SnapId
pub mod Version
pub mod Chap
pub mod Errors
pub mod Name
pub mod Log
pub mod Context
pub mod LogFormat
pub mod Util
