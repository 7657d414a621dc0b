-- ===== src/UserFs/LocalRead.antt =====
-- What `UserFS::read` of src/user_fs.cc leaves behind when a node reads a file of its own.
use group_share_filesystem.UserFs.{UserFs}
