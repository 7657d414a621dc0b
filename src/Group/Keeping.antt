-- ===== src/Group/Keeping.antt =====
-- A slave that connects and a slave that reads a message: steps of a group in which the master has no
-- part.
use group_share_filesystem.Base.{
  All, ◌≡◌, refl, ap, sym, subst, ◌∙◌, inr, Bytes, List, [], ◌∷◌, ◌++◌, ok,
}
use group_share_filesystem.Archive.{Archive, IsLossless}
use group_share_filesystem.DirTree.Node.{attributes}
use group_share_filesystem.DirTree.NodeSet.Every.{Every, Every-map}
use group_share_filesystem.DirTree.Merging.{top_level}
use group_share_filesystem.TcpMessager.Receiving.{received}
use group_share_filesystem.TcpManager.{read_from_master}
use group_share_filesystem.TcpManager.Rooted.{HasRoot}
use group_share_filesystem.UserFs.{UserFs}
use group_share_filesystem.UserFs.Starting.{start_slave-eq-ok}
use group_share_filesystem.Group.{read_all, Peer, Group, IsNewcomer, newcomer}
use group_share_filesystem.Group.Peers.{All-middle, All-split, HasOwner, HasOwner-map, HasPeer-swap}
use group_share_filesystem.Group.Following.{Settles, Settles-tail}
use group_share_filesystem.Group.Handling.{hello_of}
use group_share_filesystem.Group.Invariant.{IsCurrent, IsFollowing, introduces, follows, IsGroup}

module _ (archive : Archive) (lossless : IsLossless archive) where
  newcomer-IsFollowing :
      (master : UserFs) (p : Peer) → IsNewcomer archive p → IsFollowing archive master p
  unfolding read_all
  newcomer-IsFollowing master p
        (newcomer os addr tcp_port ssh_port message started short zero hello empty) =
      let (root, host, sorted, has_root, sent) =
        start_slave-eq-ok archive os addr tcp_port ssh_port started in
      let same : message ≡ hello_of archive root host = cc in
      introduces root host sorted (rw (sym same) short) zero (hello ∙ ap (λ t. t ∷ []) same)
        (rw empty (p.node, refl, (root, has_root)))

  pub joins-IsGroup :
      (g : Group) (p : Peer)
      → IsNewcomer archive p
      → IsGroup archive g
      → IsGroup archive (record g { peers = p ∷ g.peers })
  joins-IsGroup g p new i = record {
    serves = i.serves;
    fits = i.fits;
    ordered = i.ordered;
    following = (newcomer-IsFollowing g.master p new, i.following);
    owners =
        Every-map _ _ (λ n. HasOwner-map g.peers (p ∷ g.peers) n (λ known h. inr h)) _ i.owners;
  }

  -- A slave that reads the next message is nearer to where it will be.
  read-IsFollowing :
      (master : UserFs) (p : Peer) (message : Bytes) (rest : List Bytes) (fs : UserFs)
      → p.inbox ≡ message ∷ rest
      → read_from_master archive (received message) p.node ≡ ok fs
      → IsFollowing archive master p
      → IsFollowing archive master (record p { node = fs; inbox = rest })
  read-IsFollowing master p message rest fs e read
        (introduces root host sorted short zero hello settled) =
      introduces root host sorted short zero hello (
        Settles-tail archive HasRoot message rest p.node read
          (subst (λ ms. Settles archive HasRoot ms p.node) e settled))
  read-IsFollowing master p message rest fs e read (follows known sent settled) =
      follows known sent (
        Settles-tail archive (IsCurrent master) message rest p.node read
          (subst (λ ms. Settles archive (IsCurrent master) ms p.node) e settled))

  -- The connections of a group, and the one that a step is about.
  module _ (g : Group) (before behind : List Peer) (p : Peer) (i : IsGroup archive g)
      (split : g.peers ≡ before ++ p ∷ behind) where
    pub parts :
        All (IsFollowing archive g.master) before
        × IsFollowing archive g.master p
        × All (IsFollowing archive g.master) behind
    parts =
        All-split (IsFollowing archive g.master) before behind p
          (subst (All (IsFollowing archive g.master)) split i.following)

    pub owned : Every (HasOwner (before ++ p ∷ behind)) (top_level g.master.dir_tree)
    owned = subst (λ ps. Every (HasOwner ps) (top_level g.master.dir_tree)) split i.owners

    pub reads-IsGroup :
        (message : Bytes) (rest : List Bytes) (fs : UserFs)
        → p.inbox ≡ message ∷ rest
        → read_from_master archive (received message) p.node ≡ ok fs
        → IsGroup archive
            (record g { peers = before ++ record p { node = fs; inbox = rest } ∷ behind })
    reads-IsGroup message rest fs e read =
        let (a, h, b) = parts in
        let p' : Peer = record p { node = fs; inbox = rest } in
        record {
          serves = i.serves;
          fits = i.fits;
          ordered = i.ordered;
          following =
              All-middle (IsFollowing archive g.master) before behind p' a
                (read-IsFollowing g.master p message rest fs e read h) b;
          owners =
              Every-map _ _
                (λ n. HasOwner-map (before ++ p ∷ behind) (before ++ p' ∷ behind) n (λ known.
                  HasPeer-swap (attributes n).host_id before behind (p ∷ []) (p' ∷ []) (λ h. h)))
                _ owned;
        }
