-- ===== src/Group/Dismissing.antt =====
-- The master of a group lets a slave go: its files are gone, and all others are sent an update.
use group_share_filesystem.Base.{◌≡◌, ap, sym, subst, false, List, [], ◌∷◌, ◌++◌, map, Option}
use group_share_filesystem.Archive.{Archive, IsLossless}
use group_share_filesystem.DirTree.Node.{attributes}
use group_share_filesystem.DirTree.NodeSet.Every.{
  Every, Every-map, Every-both, erase_if-Every, erase_if-fails,
}
use group_share_filesystem.DirTree.NodeSet.{erase_if}
use group_share_filesystem.DirTree.Merging.{top_level}
use group_share_filesystem.DirTree.{belongs_to}
use group_share_filesystem.UserFs.{Effect, Reply}
use group_share_filesystem.UserFs.Invariant.{not_belongs}
use group_share_filesystem.Group.{Peer, Group, post, peers_of, carry_all, after_reply, Fits}
use group_share_filesystem.Group.Peers.{
  All-append, All-map, HasOwner, HasOwner-map, HasPeer-replace, HasPeer-swap, no_owner, another,
}
use group_share_filesystem.Group.Handling.{Dismisses-AreOrdered, Dismisses, update_of}
use group_share_filesystem.Group.Invariant.{IsFollowing, IsGroup, post-IsFollowing}
use group_share_filesystem.Group.Keeping.{parts, owned}

-- The group after a reply of the master, by what the reply asks to be sent.
pub after_reply_lem :
    (before behind : List Peer) (here : Option Peer) (r : Reply) (effects : List Effect)
    → r.effects ≡ effects
    → after_reply before here behind r ≡ record {
      master = r.fs;
      peers =
          peers_of (carry_all effects (record { before = before; here = here; behind = behind }));
    }
after_reply_lem before behind here r effects e =
    ap
      (λ es. record {
        master = r.fs;
        peers = peers_of (carry_all es (record { before = before; here = here; behind = behind }));
      })
      e

module _ (archive : Archive) (lossless : IsLossless archive) (g : Group) (before behind : List Peer)
    (p : Peer) (i : IsGroup archive g) (split : g.peers ≡ before ++ p ∷ behind) where
  -- A slave that had no id leaves nothing behind.
  pub unknown-IsGroup :
      p.slave_id ≡ 0 → IsGroup archive (record { master = g.master; peers = before ++ behind })
  unknown-IsGroup zero =
      let (a, _, b) = parts archive lossless g before behind p i split in
      record {
        serves = i.serves;
        fits = i.fits;
        ordered = i.ordered;
        following = All-append (IsFollowing archive g.master) before behind a b;
        owners =
            Every-map _ _
              (λ n. HasOwner-map (before ++ p ∷ behind) (before ++ behind) n (λ known.
                HasPeer-swap (attributes n).host_id before behind (p ∷ []) []
                  (no_owner (attributes n).host_id p zero known)))
              _ (owned archive lossless g before behind p i split);
      }

  pub leaves-IsGroup :
      (r : Reply)
      → Fits archive r.fs
      → Dismisses archive g.master p.slave_id r
      → IsGroup archive (record {
        master = r.fs;
        peers =
            map (post (update_of archive r.fs)) before
            ++ map (post (update_of archive r.fs)) behind;
      })
  leaves-IsGroup r fits gone =
      let (a, _, b) = parts archive lossless g before behind p i split in
      let update = update_of archive r.fs in
      let order = Dismisses-AreOrdered archive g.master p.slave_id r i.ordered gone in
      let send : (q : Peer)
          → IsFollowing archive g.master q
          → IsFollowing archive r.fs (post update q) =
        λ q. post-IsFollowing archive lossless r.fs gone.good fits order g.master q in
      let old = before ++ p ∷ behind in
      let new = map (post update) before ++ map (post update) behind in
      let test = belongs_to p.slave_id in
      let files = top_level g.master.dir_tree in
      record {
        serves = gone.good;
        fits = fits;
        ordered = order;
        following =
            All-append (IsFollowing archive r.fs) (map (post update) before)
              (map (post update) behind)
              (All-map (IsFollowing archive g.master) (IsFollowing archive r.fs) (post update)
                before send a)
              (All-map (IsFollowing archive g.master) (IsFollowing archive r.fs) (post update)
                behind send b);
        owners = subst (Every (HasOwner new)) (sym gone.files_are) (
            Every-map _ _
              (λ n h.
                HasOwner-map old new n
                  (λ known.
                    HasPeer-replace (attributes n).host_id update before behind (p ∷ []) []
                      (another (attributes n).host_id p (not_belongs p.slave_id n h.1)))
                  h.0)
              _
              (Every-both (HasOwner old) (λ n. test n ≡ false) (erase_if test files)
                (erase_if-Every (HasOwner old) test files
                  (owned archive lossless g before behind p i split))
                (erase_if-fails test files)));
      }
