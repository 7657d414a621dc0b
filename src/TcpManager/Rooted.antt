-- ===== src/TcpManager/Rooted.antt =====
-- A slave that has a root reads the messages of a master, over and over: TCPManager::read of
-- src/tcp_manager.cc.
use group_share_filesystem.Base.{ℕ, ◌^◌, ◌<◌, ◌≡◌, refl, [], ◌∷◌, length, ok}
use group_share_filesystem.Archive.{Archive, IsLossless}
use group_share_filesystem.DirTree.Node.{TreeNode, children}
use group_share_filesystem.DirTree.NodeSet.Ordered.{AreOrdered}
use group_share_filesystem.DirTree.Merging.{rooted, top_level}
use group_share_filesystem.TcpMessager.Receiving.{received}
use group_share_filesystem.Protocol.{recognition_message, update_message}
use group_share_filesystem.Protocol.RoundTrip.{parse_for_slave-update_message}
use group_share_filesystem.TcpManager.{read_from_master}
use group_share_filesystem.UserFs.{UserFs}
use group_share_filesystem.TcpManager.Replication.{
  SeesSame, updated, recognized, update_info_lem, recognition_lem, replaced_files,
  with_children_root,
}

-- A node whose tree has a root.
abbrev pub HasRoot : UserFs → Type 0
HasRoot fs = (r : TreeNode) × (fs.dir_tree ≡ rooted r)

module _ (archive : Archive) (lossless : IsLossless archive) (slave master : UserFs)
    (own : HasRoot slave) (root : HasRoot master) (order : AreOrdered (top_level master.dir_tree))
    (tree_fits : length (archive.save_tree master.dir_tree) < 2 ^ 48)
    (hosts_fit : length (archive.save_hosts master.hosts) < 2 ^ 48) where
  -- A slave with a root reads the messages of a master, and has a root again.
  pub read_update :
      (after : UserFs) × (read_from_master archive
          (received
            (update_message (archive.save_tree master.dir_tree) (archive.save_hosts master.hosts)))
          slave
        ≡ ok after)
      × HasRoot after
      × SeesSame after master
  unfolding read_from_master
  read_update = (
    updated slave own.0 root.0 master.hosts,
    rw
        (parse_for_slave-update_message (archive.save_tree master.dir_tree)
          (archive.save_hosts master.hosts) (0 ∷ []) tree_fits hosts_fit)
        (update_info_lem archive lossless slave own.0 root.0 own.1 master.dir_tree master.hosts
          root.1 order),
    with_children_root own.0 (children root.0),
    record {
      same_files = replaced_files archive lossless slave own.0 root.0 own.1 master.dir_tree root.1;
      same_hosts = refl;
    },
  )

  pub read_recognition :
      (id : ℕ)
      → id < 2 ^ 48
      → (after : UserFs) × (read_from_master archive
            (received (
              recognition_message id
                (archive.save_tree master.dir_tree)
                (archive.save_hosts master.hosts)))
            slave
          ≡ ok after)
        × HasRoot after
  read_recognition id fits = (
    recognized id slave own.0 root.0 master.hosts,
    recognition_lem archive lossless slave own.0 root.0 own.1 id master.dir_tree master.hosts root.1
        order fits tree_fits hosts_fit,
    with_children_root own.0 (children root.0),
  )
