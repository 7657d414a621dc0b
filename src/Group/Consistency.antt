-- ===== src/Group/Consistency.antt =====
-- What holds of a group however its nodes take turns.
use group_share_filesystem.Base.{
  ◌≡◌, ◌≢◌, refl, sym, subst, ◌∙◌, ◌==◌, ==_iff, Bool-cases, inl, inr, Bytes, List, [], ◌∷◌, ◌++◌,
  none, some, ok, ok-injective, arith,
}
use group_share_filesystem.Archive.{Archive, IsLossless}
use group_share_filesystem.DirTree.Node.{TreeNode, attributes}
use group_share_filesystem.DirTree.NodeSet.{lookup}
use group_share_filesystem.DirTree.NodeSet.Every.{Every-map, lookup-Every}
use group_share_filesystem.DirTree.Merging.{top_level}
use group_share_filesystem.Hosts.{Host, host_at}
use group_share_filesystem.TcpMessager.Receiving.{received}
use group_share_filesystem.TcpManager.{read_from_slave}
use group_share_filesystem.TcpManager.Replication.{SeesSame}
use group_share_filesystem.UserFs.{UserFs, Reply, disconnect_slave}
use group_share_filesystem.UserFs.Reading.{host_at-owner}
use group_share_filesystem.UserFs.Starting.{start_master-eq-ok}
use group_share_filesystem.Scan.Laws.{IsShare-AreOrdered, IsShare-AllOf}
use group_share_filesystem.Group.{
  Peer, Group, after_reply, Fits, Step, joins, hears, reads, leaves, Reach, start, later, read_all,
}
use group_share_filesystem.Group.Peers.{HasOwner}
use group_share_filesystem.Group.Handling.{
  hello_of, read_from_slave-Admits, disconnect_slave-Dismisses,
}
use group_share_filesystem.Group.Invariant.{IsCurrent, IsFollowing, introduces, follows, IsGroup}
use group_share_filesystem.Group.Keeping.{joins-IsGroup, reads-IsGroup, parts}
use group_share_filesystem.Group.Welcoming.{welcomed, hears-IsGroup}
use group_share_filesystem.Group.Dismissing.{after_reply_lem, unknown-IsGroup, leaves-IsGroup}

module _ (archive : Archive) (lossless : IsLossless archive) where
  heard-IsGroup :
      (g : Group) (before behind : List Peer) (p : Peer) (address message : Bytes)
      (rest : List Bytes) (r : Reply)
      → IsGroup archive g
      → g.peers ≡ before ++ p ∷ behind
      → p.outbox ≡ message ∷ rest
      → read_from_slave archive (received message) address p.slave_id g.master ≡ ok r
      → Fits archive r.fs
      → IsFollowing archive g.master p
      → IsGroup archive
          (after_reply before (some (record p { slave_id = r.slave_id; outbox = rest })) behind r)
  unfolding welcomed
  heard-IsGroup g before behind p address message rest r i split sent heard fits
        (follows known empty settled) =
      cc
  heard-IsGroup g before behind p address message rest r i split sent heard fits
        (introduces root host sorted short zero hello settled) =
      let same : message ≡ hello_of archive root host = cc in
      let no_more : rest ≡ [] = cc in
      let admits =
        read_from_slave-Admits archive lossless g.master i.serves (omega (arith, i.fits.id_fits))
          address p.slave_id root host sorted short
          (subst (λ b. read_from_slave archive (received b) address p.slave_id g.master ≡ ok r) same
            heard) in
      rw no_more (
        subst (IsGroup archive) (sym (after_reply_lem before behind _ r _ admits.effects_are)) (
          hears-IsGroup archive lossless g before behind p i split root r sorted zero settled fits
            admits))

  left-IsGroup :
      (g : Group) (before behind : List Peer) (p : Peer) (r : Reply)
      → IsGroup archive g
      → g.peers ≡ before ++ p ∷ behind
      → disconnect_slave archive p.slave_id g.master ≡ ok r
      → Fits archive r.fs
      → IsGroup archive (after_reply before none behind r)
  unfolding disconnect_slave
  left-IsGroup g before behind p r i split gone fits = elim (Bool-cases (p.slave_id == 0)) [
    | inl zero ↦
        let ignored : disconnect_slave archive p.slave_id g.master
            ≡ ok (record { fs = g.master; slave_id = p.slave_id; effects = [] }) =
          rw (zero, disconnect_slave) refl in
        subst (λ x. IsGroup archive (after_reply before none behind x))
          (ok-injective (sym ignored ∙ gone))
          (unknown-IsGroup archive lossless g before behind p i split
            ((==_iff p.slave_id 0).0 zero))
    | inr known ↦
        let dismisses =
          disconnect_slave-Dismisses archive g.master p.slave_id i.serves
            (λ e. ground (arith, e, known)) gone in
        subst (IsGroup archive) (sym (after_reply_lem before behind none r _ dismisses.effects_are))
          (leaves-IsGroup archive lossless g before behind p i split r fits dismisses)
  ]

  Step-IsGroup :
      (g h : Group)
      → Step archive g h
      → Fits archive h.master
      → IsGroup archive g
      → IsGroup archive h
  Step-IsGroup g h (joins p new e) fits i =
      subst (IsGroup archive) (sym e) (joins-IsGroup archive lossless g p new i)
  Step-IsGroup g h (hears before behind p address message rest r split sent heard e) fits i =
      subst (IsGroup archive) (sym e) (
        heard-IsGroup g before behind p address message rest r i split sent heard
          (subst (λ x. Fits archive x.master) e fits)
          (parts archive lossless g before behind p i split).1)
  Step-IsGroup g h (reads before behind p message rest fs split e read is) fits i =
      subst (IsGroup archive) (sym is)
        (reads-IsGroup archive lossless g before behind p i split message rest fs e read)
  Step-IsGroup g h (leaves before behind p r split gone e) fits i =
      subst (IsGroup archive) (sym e)
        (left-IsGroup g before behind p r i split gone (subst (λ x. Fits archive x.master) e fits))

  pub Reach-IsGroup : {g : Group} → Reach archive g → IsGroup archive g
  Reach-IsGroup (start os addr tcp_port ssh_port started fits) =
      let (serves, share) = start_master-eq-ok archive os addr tcp_port ssh_port started in
      record {
        serves = serves;
        fits = fits;
        ordered = IsShare-AreOrdered 1 _ share;
        following = tt;
        owners = Every-map _ _ (λ n e. inl e) _ (IsShare-AllOf 1 _ share);
      }
  Reach-IsGroup (later {g} {h} reach step fits) = Step-IsGroup g h step fits (Reach-IsGroup reach)

  -- What a slave that has an id comes to.
  pub Reach-IsCurrent :
      {g : Group} (before behind : List Peer) (p : Peer)
      → Reach archive g
      → g.peers ≡ before ++ p ∷ behind
      → p.slave_id ≢ 0
      → (after : UserFs) × (read_all archive p.inbox p.node ≡ ok after) × IsCurrent g.master after
  Reach-IsCurrent {g} before behind p reach split known =
      elim (parts archive lossless g before behind p (Reach-IsGroup reach) split).1 [
        | introduces _ _ _ _ zero _ _ ↦ absurd (known zero)
        | follows _ _ settled ↦ settled
      ]

  -- If the archives lose nothing: in every group that can be reached, a slave that has an id can read
  -- all messages that are on their way to it, and shows the same files and hosts as the master when it
  -- has.
  pub Reach-SeesSame :
      {g : Group} (before behind : List Peer) (p : Peer)
      → Reach archive g
      → g.peers ≡ before ++ p ∷ behind
      → p.slave_id ≢ 0
      → (after : UserFs) × (read_all archive p.inbox p.node ≡ ok after) × SeesSame after g.master
  Reach-SeesSame before behind p reach split known =
      let (after, read, (_, same)) = Reach-IsCurrent before behind p reach split known in
      (after, read, same)

  -- If the archives lose nothing: in every group that can be reached, each file that the master shows
  -- belongs to the master or to a slave that is still connected, and the host of its owner stands at
  -- the owner's id.
  pub Reach-HasOwner :
      {g : Group} (k : Bytes) (n : TreeNode)
      → Reach archive g
      → lookup k (top_level g.master.dir_tree) ≡ some n
      → HasOwner g.peers n
        × ((host : Host) × (host_at g.master.hosts (attributes n).host_id ≡ ok host)
            × (host.id ≡ (attributes n).host_id))
  Reach-HasOwner {g} k n reach found =
      let i = Reach-IsGroup reach in
      (
        lookup-Every (HasOwner g.peers) k (top_level g.master.dir_tree) n i.owners found,
        host_at-owner g.master k n i.serves found,
      )
