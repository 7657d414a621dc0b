-- ===== src/Ssh.antt =====
-- The SFTP connections by which a node reads files of other nodes.
pub mod Session
pub mod Manager
pub mod Laws
