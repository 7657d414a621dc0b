-- ===== src/Archive.antt =====
-- The interface of saving and loading: the `serialize` and `deserialize` functions of src/dir_tree.cc and
-- src/host.h, as the handlers call them. Loading may throw.
use group_share_filesystem.Base.{Bytes, Outcome, ok, ◌≡◌}
use group_share_filesystem.DirTree.NodeSet.Ordered.{AreOrdered}
use group_share_filesystem.DirTree.Merging.{top_level}
use group_share_filesystem.DirTree.{DirTree}
use group_share_filesystem.Hosts.{Host, Hosts}

pub record Archive : Type 0 where
  pub save_tree : DirTree → Bytes
  pub load_tree : Bytes → Outcome DirTree
  pub save_host : Host → Bytes
  pub load_host : Bytes → Outcome Host
  pub save_hosts : Hosts → Bytes
  pub load_hosts : Bytes → Outcome Hosts

-- What was saved is loaded, if the sets of the tree are in their order, as a `std::set` is.
pub record IsLossless (a : Archive) : Type 0 where
  pub load-save_tree : (t : DirTree) → AreOrdered (top_level t) → a.load_tree (a.save_tree t) ≡ ok t
  pub load-save_host : (h : Host) → a.load_host (a.save_host h) ≡ ok h
  pub load-save_hosts : (h : Hosts) → a.load_hosts (a.save_hosts h) ≡ ok h
