-- ===== src/Group/Invariant.antt =====
-- What holds of a group between two steps: the master serves, and each slave either introduces itself
-- or follows the master.
use group_share_filesystem.DirTree.NodeSet.Ordered.{AreOrdered}
use group_share_filesystem.Base.{All, ℕ, ◌^◌, ◌<◌, ◌≡◌, ◌≢◌, Bytes, List, [], ◌∷◌, ◌++◌, length}
use group_share_filesystem.Archive.{Archive, IsLossless}
use group_share_filesystem.DirTree.Node.{TreeNode, children}
use group_share_filesystem.DirTree.NodeSet.Every.{Every}
use group_share_filesystem.DirTree.Merging.{top_level}
use group_share_filesystem.Hosts.{Host}
use group_share_filesystem.TcpManager.Replication.{SeesSame}
use group_share_filesystem.TcpManager.Rooted.{HasRoot, read_update, read_recognition}
use group_share_filesystem.UserFs.{UserFs}
use group_share_filesystem.UserFs.Membership.{IsMaster}
use group_share_filesystem.Group.{Peer, Group, post, Fits}
use group_share_filesystem.Group.Peers.{HasOwner}
use group_share_filesystem.Group.Following.{Settles, Settles-map, Settles-snoc}
use group_share_filesystem.Group.Handling.{update_of, recognition_of, hello_of}

-- A slave that can read on, and shows what the master shows.
abbrev pub IsCurrent : UserFs → UserFs → Type 0
IsCurrent master fs = HasRoot fs × SeesSame fs master

module _ (archive : Archive) where
  -- A connection is either new, with the introduction of its slave on the way, or its slave has an id
  -- and is current when it has read all that is on its way to it.
  pub data IsFollowing (master : UserFs) (p : Peer) : Type 0 where
    introduces :
        (root : TreeNode) (host : Host)
        → AreOrdered (children root)
        → length (hello_of archive root host) < 2 ^ 48
        → p.slave_id ≡ 0
        → p.outbox ≡ hello_of archive root host ∷ []
        → Settles archive HasRoot p.inbox p.node
        → IsFollowing master p
    follows :
        p.slave_id ≢ 0
        → p.outbox ≡ []
        → Settles archive (IsCurrent master) p.inbox p.node
        → IsFollowing master p

  pub record IsGroup (g : Group) : Type 0 where
    pub serves : IsMaster g.master
    pub fits : Fits archive g.master
    pub ordered : AreOrdered (top_level g.master.dir_tree)
    pub following : All (IsFollowing g.master) g.peers
    pub owners : Every (HasOwner g.peers) (top_level g.master.dir_tree)

  pub root_of : {fs : UserFs} → IsMaster fs → HasRoot fs
  root_of m = (m.root, m.has_root)

  module _ (lossless : IsLossless archive) (master : UserFs) (m : IsMaster master)
      (fits : Fits archive master) (order : AreOrdered (top_level master.dir_tree)) where
    -- Whatever a slave was about to show, one more update brings it to what the master shows.
    pub Settles-update :
        (messages : List Bytes) (fs : UserFs)
        → Settles archive HasRoot messages fs
        → Settles archive (IsCurrent master) (messages ++ update_of archive master ∷ []) fs
    Settles-update messages fs =
        Settles-snoc archive HasRoot (IsCurrent master) messages (update_of archive master) fs
          (λ after r.
            let (last, read, root, same) =
              read_update archive lossless after master r (root_of m) order fits.tree_fits
                fits.hosts_fit in
            (last, read, (root, same)))

    pub Settles-recognition :
        (id : ℕ) (messages : List Bytes) (fs : UserFs)
        → id < 2 ^ 48
        → Settles archive HasRoot messages fs
        → Settles archive HasRoot (messages ++ recognition_of archive id master ∷ []) fs
    Settles-recognition id messages fs h =
        Settles-snoc archive HasRoot HasRoot messages (recognition_of archive id master) fs
          (λ after r.
            read_recognition archive lossless after master r (root_of m) order fits.tree_fits
              fits.hosts_fit id h)

    -- An update of the master to a connection of a group, whatever the master was before.
    pub post-IsFollowing :
        (old : UserFs) (p : Peer)
        → IsFollowing old p
        → IsFollowing master (post (update_of archive master) p)
    post-IsFollowing old p (introduces root host sorted short zero hello settled) =
        introduces root host sorted short zero hello (
          Settles-map archive (IsCurrent master) HasRoot _ p.node (λ after c. c.0)
            (Settles-update p.inbox p.node settled))
    post-IsFollowing old p (follows known sent settled) = follows known sent (
        Settles-update p.inbox p.node
          (Settles-map archive (IsCurrent old) HasRoot p.inbox p.node (λ after c. c.0) settled))
