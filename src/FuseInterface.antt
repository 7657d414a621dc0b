-- ===== src/FuseInterface.antt =====
-- Class FUSEInterface of src/fuse_interface.h and src/fuse_interface.cc: the file system calls. A call
-- returns zero or more, or a negated error number.
pub mod Laws
pub mod Agreement
use group_share_filesystem.Base.{
  ℕ, ◌+◌, ◌-◌, ◌%◌, ◌^◌, ◌==◌, leb, ltb, if◌then◌else◌, Bool, true, false, Bytes, List, [], ◌∷◌,
  Option, none, some, Outcome, ok, fault, assertion, ◌>>=◌, bit_and,
}
use group_share_filesystem.DirTree.Node.{
  FileType, regular, directory, chrdevice, blkdevice, fifo, symlink, socket, unknown, Attributes,
  TreeNode, Children, nil, cons, attributes, name, children,
}
use group_share_filesystem.Ssh.Manager.{Connections}
use group_share_filesystem.UserFs.{UserFs, find}
use group_share_filesystem.UserFs.Reading.{World, read as user_read}

pub data Errno : Type 0 where
  enoent enotdir eacces eisdir eio : Errno

-- What a call returns, with what it has put into the caller's buffer.
pub data Status {ℓ} (A : Type ℓ) : Type ℓ where
  done : A → Status A
  failed : Errno → Status A

-- `S_IFREG` and so on.
pub data FileKind : Type 0 where
  s_ifreg s_ifdir s_iflnk s_ifchr s_ifblk s_ififo s_ifsock : FileKind

-- The fields of `struct stat` that are set; `st_mode` is a kind and permission bits.
pub record FileStat : Type 0 where
  pub kind : FileKind
  pub permissions : ℕ
  pub st_nlink : ℕ
  pub st_size : ℕ
  pub st_mtime : ℕ

mode_of : FileType → Option (FileKind × ℕ)
mode_of regular = some (s_ifreg, 0o444)
mode_of directory = some (s_ifdir, 0o755)
mode_of symlink = some (s_iflnk, 0o444)
mode_of chrdevice = some (s_ifchr, 0o444)
mode_of blkdevice = some (s_ifblk, 0o444)
mode_of fifo = some (s_ififo, 0o444)
mode_of socket = some (s_ifsock, 0o444)
mode_of unknown = none

stat_with : Attributes → Option (FileKind × ℕ) → Status FileStat
stat_with a none = failed enoent
stat_with a (some (kind, permissions)) = done (record {
  kind = kind;
  permissions = permissions;
  st_nlink = a.num_links;
  st_size = a.size;
  st_mtime = a.mtime;
})

stat_of : Option TreeNode → Status FileStat
stat_of none = failed enoent
stat_of (some n) = stat_with (attributes n) (mode_of (attributes n).type)

unfoldable pub getattr : UserFs → List Bytes → Outcome (Status FileStat)
unfolding stat_of stat_with mode_of
getattr fs path = do node ← find fs path; ok (stat_of node)

-- The names that `filler` is called with, in order.
unfoldable pub names_of : Children → List Bytes
names_of nil = []
names_of (cons n rest) = name n ∷ names_of rest

list_dir : FileType → Children → Status (List Bytes)
list_dir directory s = done (names_of s)
list_dir _ s = failed enotdir

entries_of : Option TreeNode → Status (List Bytes)
entries_of none = failed enoent
entries_of (some n) = list_dir (attributes n).type (children n)

unfoldable pub readdir : UserFs → List Bytes → Outcome (Status (List Bytes))
unfolding entries_of list_dir names_of
readdir fs path = do node ← find fs path; ok (entries_of node)

-- `O_RDONLY` is 0.
open_node : ℕ → Option TreeNode → Status (Unit {0})
open_node flags none = failed enoent
open_node flags (some n) = if bit_and flags 3 == 0 then done tt else failed eacces

unfoldable pub open_file : UserFs → List Bytes → ℕ → Outcome (Status (Unit {0}))
unfolding open_node
open_file fs path flags = do node ← find fs path; ok (open_node flags node)

-- An `off_t`: a count of bytes, or some negative number.
pub data Offset : Type 0 where
  at : ℕ → Offset
  negative : Offset

unfoldable pub status_of_read : Connections × Option ℕ → Connections × Status ℕ
status_of_read (connections, none) = (connections, failed eio)
status_of_read (connections, some n) = (connections, done n)

-- The path is handed on as text; `elements` are what Boost makes of it.
module _ (world : World) (fs : UserFs) (text : Bytes) (elements : List Bytes)
    (connections : Connections) where
  -- The source also computes a size that ends at the end of the file, and does not use it.
  unfoldable pub read_at : ℕ → ℕ → Attributes → Outcome (Connections × Status ℕ)
  read_at size offset a =
      if leb a.size offset
      then ok (connections, done 0)
      else (user_read world a.host_id text offset size fs connections >>= λ r.
          ok (status_of_read r))

  unfoldable pub read_from : ℕ → Offset → Attributes → Outcome (Connections × Status ℕ)
  read_from size negative a = fault assertion
  read_from size (at offset) a = read_at size offset a

  unfoldable pub read_typed : ℕ → Offset → FileType → Attributes → Outcome (Connections × Status ℕ)
  read_typed size offset directory a = ok (connections, failed eisdir)
  read_typed size offset _ a = read_from size offset a

  unfoldable pub read_node : ℕ → Offset → Option TreeNode → Outcome (Connections × Status ℕ)
  read_node size offset none = ok (connections, failed enoent)
  read_node size offset (some n) = read_typed size offset (attributes n).type (attributes n)

  unfoldable pub read : ℕ → Offset → Outcome (Connections × Status ℕ)
  unfolding read_node read_typed read_from read_at status_of_read
  read size offset = do node ← find fs elements; read_node size offset node
