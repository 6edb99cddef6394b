-- ===== src/Cmd.antt =====
-- cmd: the programs of the repository.
pub mod IscsiRecv
pub mod IscsiSend
pub mod Start
