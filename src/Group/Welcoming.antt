-- ===== src/Group/Welcoming.antt =====
-- The master of a group takes a slave in: the slave has an id, and all slaves are sent an update.
use group_share_filesystem.DirTree.NodeSet.Ordered.{AreOrdered}
use group_share_filesystem.Base.{
  ℕ, ◌≡◌, ◌≢◌, refl, sym, subst, ◌∙◌, inl, inr, List, [], ◌∷◌, ◌++◌, map, arith,
}
use group_share_filesystem.Archive.{Archive, IsLossless}
use group_share_filesystem.DirTree.Node.{TreeNode, attributes, children, set_host_children}
use group_share_filesystem.DirTree.NodeSet.Every.{Every, Every-map, insert_all-Every}
use group_share_filesystem.DirTree.Merging.{set_host_children-AllOf}
use group_share_filesystem.TcpManager.Rooted.{HasRoot}
use group_share_filesystem.UserFs.{Reply}
use group_share_filesystem.Group.{Peer, Group, post, Fits}
use group_share_filesystem.Group.Peers.{
  All-middle, All-map, HasOwner, HasOwner-map, HasPeer-right, HasPeer-replace, no_owner,
}
use group_share_filesystem.Group.Following.{Settles}
use group_share_filesystem.Group.Handling.{Admits-AreOrdered, Admits, update_of, recognition_of}
use group_share_filesystem.Group.Invariant.{
  IsFollowing, follows, IsGroup, Settles-update, Settles-recognition, post-IsFollowing,
}
use group_share_filesystem.Group.Keeping.{parts, owned}

module _ (archive : Archive) (lossless : IsLossless archive) (g : Group) (before behind : List Peer)
    (p : Peer) (i : IsGroup archive g) (split : g.peers ≡ before ++ p ∷ behind) where
  -- The connection of a slave that has just been taken in.
  unfoldable pub welcomed : Reply → Peer
  welcomed r = record {
    slave_id = r.slave_id;
    node = p.node;
    outbox = [];
    inbox = (p.inbox ++ recognition_of archive r.slave_id r.fs ∷ []) ++ update_of archive r.fs ∷ [];
  }

  pub hears-IsGroup :
      (slave : TreeNode) (r : Reply)
      → AreOrdered (children slave)
      → p.slave_id ≡ 0
      → Settles archive HasRoot p.inbox p.node
      → Fits archive r.fs
      → Admits archive g.master slave r
      → IsGroup archive (record {
        master = r.fs;
        peers =
            map (post (update_of archive r.fs)) before
            ++ welcomed r ∷ map (post (update_of archive r.fs)) behind;
      })
  unfolding welcomed
  hears-IsGroup slave r sorted zero settled fits admits =
      let (a, h, b) = parts archive lossless g before behind p i split in
      let update = update_of archive r.fs in
      let order = Admits-AreOrdered archive g.master slave r sorted i.ordered admits in
      let send : (q : Peer)
          → IsFollowing archive g.master q
          → IsFollowing archive r.fs (post update q) =
        λ q. post-IsFollowing archive lossless r.fs admits.good fits order g.master q in
      let old = before ++ p ∷ behind in
      let new = map (post update) before ++ welcomed r ∷ map (post update) behind in
      let id : ℕ = g.master.max_host_id in
      let fresh : id ≢ 0 = omega (arith, i.serves.started) in
      let heard =
        Settles-recognition archive lossless r.fs admits.good fits order r.slave_id p.inbox p.node
          (omega (arith, admits.id_is, i.fits.id_fits)) settled in
      record {
        serves = admits.good;
        fits = fits;
        ordered = order;
        following =
            All-middle (IsFollowing archive r.fs) (map (post update) before)
              (map (post update) behind) (welcomed r)
              (All-map (IsFollowing archive g.master) (IsFollowing archive r.fs) (post update)
                before send a)
              (follows (omega (arith, admits.id_is, fresh)) refl
                (Settles-update archive lossless r.fs admits.good fits order _ p.node heard))
              (All-map (IsFollowing archive g.master) (IsFollowing archive r.fs) (post update)
                behind send b);
        owners = subst (Every (HasOwner new)) (sym admits.files_are) (
            insert_all-Every (HasOwner new) (set_host_children id (children slave)) _
              (Every-map _ _
                (λ n e. inr (
                  (λ z. fresh (sym e ∙ z)),
                  HasPeer-right (attributes n).host_id (map (post update) before) _
                      (inl (admits.id_is ∙ sym e)),
                ))
                _ (set_host_children-AllOf id (children slave)))
              (Every-map _ _
                (λ n. HasOwner-map old new n (λ known.
                  HasPeer-replace (attributes n).host_id update before behind (p ∷ [])
                    (welcomed r ∷ [])
                    (λ own. absurd (no_owner (attributes n).host_id p zero known own))))
                _ (owned archive lossless g before behind p i split)));
      }
