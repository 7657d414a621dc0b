-- ===== src/DirTree/Node.antt =====
-- DirTree::TreeNode of src/dir_tree.h. The set of children is a list in the order of the set.
use group_share_filesystem.Base.{ℕ, Bytes}

pub data FileType : Type 0 where
  regular directory chrdevice blkdevice fifo symlink socket unknown : FileType

-- The fields other than the name and the children.
pub record Attributes : Type 0 where
  pub type : FileType
  pub size : ℕ
  pub uid : ℕ
  pub gid : ℕ
  pub atime : ℕ
  pub mtime : ℕ
  pub ctime : ℕ
  pub host_id : ℕ
  pub num_links : ℕ

mutual
  pub data TreeNode : Type 0 where
    node : Attributes → Bytes → Children → TreeNode

  pub data Children : Type 0 where
    nil : Children
    cons : TreeNode → Children → Children

abbrev pub attributes : TreeNode → Attributes
attributes (node a n cs) = a

abbrev pub name : TreeNode → Bytes
name (node a n cs) = n

abbrev pub children : TreeNode → Children
children (node a n cs) = cs

-- `TreeNode::setHostID`: everything below the node now belongs to the host, the node itself not.
unfoldable pub set_host_children : ℕ → Children → Children
set_host_children host nil = nil
set_host_children host (cons (node a n cs) rest) =
    cons (node (record a { host_id = host }) n (set_host_children host cs))
      (set_host_children host rest)

unfoldable pub set_host_id : ℕ → TreeNode → TreeNode
unfolding set_host_children
set_host_id host (node a n cs) = node a n (set_host_children host cs)
