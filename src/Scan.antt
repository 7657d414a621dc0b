-- ===== src/Scan.antt =====
-- The walk over the working directory in `UserFS::initDirTree` of src/user_fs.cc. What Boost reports
-- of the directory is an argument: a listing of entries, each with its own listing. A query that is
-- `none`, and an iteration that breaks off, throw.
pub mod Laws
use group_share_filesystem.Base.{
  ℕ, Bytes, Option, none, some, Outcome, ok, fault, or_fault, filesystem_error, ◌>>=◌,
  if◌then◌else◌,
}
use group_share_filesystem.DirTree.Names.{name_eq}
use group_share_filesystem.DirTree.Node.{
  FileType, regular, directory, chrdevice, blkdevice, fifo, symlink, socket, unknown, Attributes,
  TreeNode, node, Children, nil, cons, name, children,
}
use group_share_filesystem.DirTree.NodeSet.{insert, lookup}

-- `boost::filesystem::file_type`
pub data FileStatus : Type 0 where
  directory_file regular_file character_file block_file fifo_file symlink_file : FileStatus
  socket_file type_unknown other : FileStatus

pub record Stat : Type 0 where
  pub status : FileStatus
  pub file_size : Option ℕ
  pub last_write_time : Option ℕ
  pub hard_link_count : Option ℕ

pub data Listing : Type 0 where
  finished : Listing
  broken_off : Listing
  entry : Stat → Bytes → Listing → Listing → Listing

-- The `switch` over the status.
abbrev pub treenode_type : FileStatus → FileType
treenode_type directory_file = directory
treenode_type regular_file = regular
treenode_type character_file = chrdevice
treenode_type block_file = blkdevice
treenode_type fifo_file = fifo
treenode_type symlink_file = symlink
treenode_type socket_file = socket
treenode_type _ = unknown

-- A new node: the fields that the code does not set are as the memory was.
pub dir_node : Attributes → ℕ → Stat → Bytes → Outcome TreeNode
dir_node memory host_id stat filename = do
  mtime ← or_fault filesystem_error stat.last_write_time
  num_links ← or_fault filesystem_error stat.hard_link_count
  ok (
      node
        (record memory {
          type = directory;
          size = 0;
          mtime = mtime;
          host_id = host_id;
          num_links = num_links;
        })
        filename nil)

pub file_node : Attributes → ℕ → Stat → FileType → Bytes → Outcome TreeNode
file_node memory host_id stat type filename = do
  size ← or_fault filesystem_error stat.file_size
  mtime ← or_fault filesystem_error stat.last_write_time
  num_links ← or_fault filesystem_error stat.hard_link_count
  ok (
      node
        (record memory {
          type = type;
          size = size;
          mtime = mtime;
          host_id = host_id;
          num_links = num_links;
        })
        filename nil)

-- What `insert` returns an iterator to: the children of the element of that name, to read and to set.
unfoldable pub children_of : Bytes → Children → Children
children_of k s = elim (lookup k s) [ none ↦ nil | some n ↦ children n ]

abbrev with_node_children : Children → TreeNode → TreeNode
with_node_children cs (node a n old) = node a n cs

unfoldable pub set_children_of : Bytes → Children → Children → Children
set_children_of k cs nil = nil
set_children_of k cs (cons n rest) =
    if name_eq (name n) k
    then cons (with_node_children cs n) rest
    else cons n (set_children_of k cs rest)

pub data Kind : Type 0 where
  skipped is_dir : Kind
  is_file : FileType → Kind

abbrev pub kind_of : FileType → Kind
kind_of unknown = skipped
kind_of directory = is_dir
kind_of t = is_file t

-- `traverseDirectory`: the entries go into the children of `parent`.
unfoldable pub traverse_directory : Attributes → ℕ → Listing → Children → Outcome Children
unfolding dir_node file_node children_of set_children_of
traverse_directory memory host_id finished parent = ok parent
traverse_directory memory host_id broken_off parent = fault filesystem_error
traverse_directory memory host_id (entry stat filename below rest) parent =
    elim (kind_of (treenode_type stat.status)) [
      | skipped ↦ traverse_directory memory host_id rest parent
      | is_dir ↦ do
        dirnode ← dir_node memory host_id stat filename
        let inserted = insert dirnode parent
        filled ← traverse_directory memory host_id below (children_of filename inserted)
        traverse_directory memory host_id rest (set_children_of filename filled inserted)
      | is_file type ↦ do
        filenode ← file_node memory host_id stat type filename
        traverse_directory memory host_id rest (insert filenode parent)
    ]
