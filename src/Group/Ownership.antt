-- ===== src/Group/Ownership.antt =====
-- Who owns the files that a master of the group shows, at every depth of its tree: src/user_fs.cc.
use group_share_filesystem.Base.{
  ℕ, ◌==◌, ◌≡◌, inl, inr, refl, sym, ap, ◌∙◌, subst, Bool-cases, ok-injective, Bytes, List, [], ◌∷◌,
  some, ok, arith,
}
use group_share_filesystem.Archive.{Archive, IsLossless}
use group_share_filesystem.DirTree.Finding.{ArePlain, walk, find-walk}
use group_share_filesystem.DirTree.Merging.{top_level}
use group_share_filesystem.DirTree.Node.{
  TreeNode, node, Children, nil, cons, attributes, children, set_host_children,
}
use group_share_filesystem.DirTree.NodeSet.{lookup}
use group_share_filesystem.DirTree.NodeSet.Every.{
  Every, insert_all-Every, erase_if-Every, lookup-Every,
}
use group_share_filesystem.DirTree.Uniform.{
  AllBelow, IsUniform, AllBelow-IsUniform, set_host_children-IsUniform, walk-IsUniform, walk-first,
}
use group_share_filesystem.DirTree.{slash, belongs_to, find as tree_find}
use group_share_filesystem.Hosts.{Host, host_at}
use group_share_filesystem.Scan.Laws.{IsShare}
use group_share_filesystem.TcpManager.{read_from_slave}
use group_share_filesystem.TcpMessager.Receiving.{received}
use group_share_filesystem.UserFs.{UserFs, Reply, disconnect_slave, find}
use group_share_filesystem.UserFs.Starting.{start_master-eq-ok}
use group_share_filesystem.Group.{
  Peer, Group, Step, joins, hears, reads, leaves, Reach, start, later,
}
use group_share_filesystem.Group.Consistency.{Reach-IsGroup, Reach-HasOwner}
use group_share_filesystem.Group.Handling.{
  Admits, Dismisses, hello_of, read_from_slave-Admits, disconnect_slave-Dismisses,
}
use group_share_filesystem.Group.Invariant.{IsFollowing, introduces, follows, IsGroup}
use group_share_filesystem.Group.Keeping.{parts}
use group_share_filesystem.Group.Peers.{HasOwner}

IsShare-AllBelow : (host : ℕ) (s : Children) → IsShare host s → AllBelow host s
IsShare-AllBelow host nil h = tt
IsShare-AllBelow host (cons (node a n cs) rest) h =
    (h.0, IsShare-AllBelow host cs h.2, IsShare-AllBelow host rest h.3)

-- Each top-level file of a master, with all that is below it, belongs to one host.
abbrev AreUniform : UserFs → Type 0
AreUniform fs = Every IsUniform (top_level fs.dir_tree)

module _ (archive : Archive) where
  Admits-AreUniform :
      (master : UserFs) (slave : TreeNode) (r : Reply)
      → Admits archive master slave r
      → AreUniform master
      → AreUniform r.fs
  Admits-AreUniform master slave r admits uniform = subst (Every IsUniform) (sym admits.files_are) (
      insert_all-Every IsUniform (set_host_children master.max_host_id (children slave)) _
        (set_host_children-IsUniform master.max_host_id (children slave)) uniform)

  Dismisses-AreUniform :
      (master : UserFs) (id : ℕ) (r : Reply)
      → Dismisses archive master id r
      → AreUniform master
      → AreUniform r.fs
  Dismisses-AreUniform master id r gone uniform =
      subst (Every IsUniform) (sym gone.files_are)
        (erase_if-Every IsUniform (belongs_to id) _ uniform)

  heard-AreUniform :
      (lossless : IsLossless archive) (g : Group) (p : Peer) (address message : Bytes)
      (rest : List Bytes) (r : Reply)
      → IsGroup archive g
      → p.outbox ≡ message ∷ rest
      → read_from_slave archive (received message) address p.slave_id g.master ≡ ok r
      → IsFollowing archive g.master p
      → AreUniform g.master
      → AreUniform r.fs
  heard-AreUniform lossless g p address message rest r i sent heard (follows known empty settled)
        uniform =
      cc
  heard-AreUniform lossless g p address message rest r i sent heard
        (introduces root host sorted short zero hello settled) uniform =
      let same : message ≡ hello_of archive root host = cc in
      Admits-AreUniform g.master root r
        (read_from_slave-Admits archive lossless g.master i.serves (omega (arith, i.fits.id_fits))
          address p.slave_id root host sorted short
          (subst (λ b. read_from_slave archive (received b) address p.slave_id g.master ≡ ok r) same
            heard))
        uniform

  left-AreUniform :
      (g : Group) (id : ℕ) (r : Reply)
      → IsGroup archive g
      → disconnect_slave archive id g.master ≡ ok r
      → AreUniform g.master
      → AreUniform r.fs
  unfolding disconnect_slave
  left-AreUniform g id r i gone uniform = elim (Bool-cases (id == 0)) [
    | inl zero ↦
        (let ignored : disconnect_slave archive id g.master
              ≡ ok (record { fs = g.master; slave_id = id; effects = [] }) =
            rw (zero, disconnect_slave) refl in
          subst (λ x. AreUniform x.fs) (ok-injective (sym ignored ∙ gone)) uniform)
    | inr known ↦
        Dismisses-AreUniform g.master id r
          (disconnect_slave-Dismisses archive g.master id i.serves (λ e. ground (arith, e, known))
            gone)
          uniform
  ]

module _ (archive : Archive) (lossless : IsLossless archive) where
  Step-AreUniform :
      (g h : Group)
      → Step archive g h
      → IsGroup archive g
      → AreUniform g.master
      → AreUniform h.master
  Step-AreUniform g h (joins p new e) i uniform = subst (λ x. AreUniform x.master) (sym e) uniform
  Step-AreUniform g h (hears before behind p address message rest r split sent heard e) i uniform =
      subst (λ x. AreUniform x.master) (sym e)
        (heard-AreUniform archive lossless g p address message rest r i sent heard
          (parts archive lossless g before behind p i split).1 uniform)
  Step-AreUniform g h (reads before behind p message rest fs split e read is) i uniform =
      subst (λ x. AreUniform x.master) (sym is) uniform
  Step-AreUniform g h (leaves before behind p r split gone e) i uniform =
      subst (λ x. AreUniform x.master) (sym e)
        (left-AreUniform archive g p.slave_id r i gone uniform)

  Reach-AreUniform : {g : Group} → Reach archive g → AreUniform g.master
  Reach-AreUniform (start os addr tcp_port ssh_port {fs} started fits) =
      let (_, share) = start_master-eq-ok archive os addr tcp_port ssh_port started in
      AllBelow-IsUniform 1 (top_level fs.dir_tree) (IsShare-AllBelow 1 _ share)
  Reach-AreUniform (later {g} {h} reach step fits) =
      Step-AreUniform g h step (Reach-IsGroup archive lossless reach) (Reach-AreUniform reach)

-- If the archives lose nothing: in every group that can be reached, whatever file the master finds below
-- its root, by a path with no element `.` or `..`, belongs to the master or to the slave of a connection
-- of the group, and the host at the index of the owner's id is there and has the owner's id.
pub find-HasOwner :
    (archive : Archive) (lossless : IsLossless archive) {g : Group} (k : Bytes) (path : List Bytes)
    (n : TreeNode)
    → Reach archive g
    → ArePlain (k ∷ path)
    → find g.master (slash ∷ k ∷ path) ≡ ok (some n)
    → HasOwner g.peers n
      × ((host : Host) × (host_at g.master.hosts (attributes n).host_id ≡ ok host)
          × (host.id ≡ (attributes n).host_id))
unfolding find
find-HasOwner archive lossless {g} k path n reach plain found =
    let i = Reach-IsGroup archive lossless reach in
    let walked : walk i.serves.root (k ∷ path) ≡ some n = ok-injective (
      sym (find-walk i.serves.root (k ∷ path) plain)
      ∙ sym (ap (λ t. tree_find t (slash ∷ k ∷ path)) i.serves.has_root)
      ∙ found) in
    let (t, first, below) = walk-first i.serves.root n k path walked in
    let at_top : lookup k (top_level g.master.dir_tree) ≡ some t =
      ap (λ x. lookup k (top_level x)) i.serves.has_root ∙ first in
    let same : (attributes n).host_id ≡ (attributes t).host_id =
      walk-IsUniform t n path
        (lookup-Every IsUniform k (top_level g.master.dir_tree) t
          (Reach-AreUniform archive lossless reach) at_top)
        below in
    let (owner, hosted) = Reach-HasOwner archive lossless k t reach at_top in
    rw same (owner, hosted)
