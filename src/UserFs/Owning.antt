-- ===== src/UserFs/Owning.antt =====
-- Who owns the files of a master of src/user_fs.cc, at every depth, when a slave joins and when it goes.
use group_share_filesystem.Base.{ℕ, ◌+◌, ◌^◌, ◌<◌, ◌≡◌, sym, ap, ◌∙◌, Bytes, ok, arith}
use group_share_filesystem.Archive.{Archive}
use group_share_filesystem.DirTree.Everywhere.{
  Everywhere, Everywhere-Every, Every-Everywhere, Everywhere-map, Throughout,
  set_host_children-Everywhere,
}
use group_share_filesystem.DirTree.Merging.{top_level, top_level-with_children}
use group_share_filesystem.DirTree.Node.{
  TreeNode, Children, attributes, children, set_host_children,
}
use group_share_filesystem.DirTree.NodeSet.{insert_all}
use group_share_filesystem.DirTree.NodeSet.Every.{insert_all-Every}
use group_share_filesystem.Hosts.{Host, Hosts, host_at}
use group_share_filesystem.Hosts.Numbering.{host_at-IsNumbered}
use group_share_filesystem.UserFs.{UserFs, Reply, new_connection}
use group_share_filesystem.UserFs.Invariant.{new_connection-IsMaster}
use group_share_filesystem.UserFs.Membership.{HasOwnerBelow, IsMaster, new_connection-IsAdmitted}

-- Every file, at every depth, has an id that has been handed out.
abbrev pub AreOwned : UserFs → Type 0
AreOwned fs = Everywhere (HasOwnerBelow fs.max_host_id) (top_level fs.dir_tree)

-- The host at the index of the id is there, and has that id.
abbrev pub IsHost : Hosts → ℕ → Type 0
IsHost hosts id = (host : Host) × (host_at hosts id ≡ ok host) × (host.id ≡ id)

insert_all-Everywhere :
    (P : TreeNode → Type 0) (t s : Children)
    → Everywhere P t
    → Everywhere P s
    → Everywhere P (insert_all t s)
insert_all-Everywhere P t s h k =
    Every-Everywhere P (insert_all t s)
      (insert_all-Every (Throughout P) t s (Everywhere-Every P t h) (Everywhere-Every P s k))

-- Each file of a master that is ready to serve has the id of a host.
owned-IsHost :
    (fs : UserFs)
    → IsMaster fs
    → AreOwned fs
    → Everywhere (λ n. IsHost fs.hosts (attributes n).host_id) (top_level fs.dir_tree)
owned-IsHost fs m =
    Everywhere-map (HasOwnerBelow fs.max_host_id) (λ n. IsHost fs.hosts (attributes n).host_id)
      (λ n h. host_at-IsNumbered fs.hosts _ m.numbered h.0 (rw m.counted h.1)) _

module _ (archive : Archive) (d h address : Bytes) (handle : ℕ) (fs : UserFs) {r : Reply}
    (m : IsMaster fs) (owned : AreOwned fs) where
  joined-AreOwned :
      fs.max_host_id + 1 < 2 ^ 64
      → new_connection archive d h address handle fs ≡ ok r
      → r.fs.max_host_id ≡ fs.max_host_id + 1
      → AreOwned r.fs
  joined-AreOwned room e next =
      let (slave, host, is) = new_connection-IsAdmitted archive d h address handle fs m e in
      let marked = set_host_children fs.max_host_id (children slave) in
      let started = m.started in
      let files : top_level r.fs.dir_tree ≡ insert_all marked (top_level fs.dir_tree) =
        ap (λ (x : Reply). top_level x.fs.dir_tree) is
        ∙ top_level-with_children m.root (insert_all marked (children m.root))
        ∙ ap (λ t. insert_all marked (top_level t)) (sym m.has_root) in
      let P = HasOwnerBelow (fs.max_host_id + 1) in
      rw (files, next)
        (insert_all-Everywhere P marked (top_level fs.dir_tree)
          (set_host_children-Everywhere P fs.max_host_id (λ n e. (omega arith, omega arith))
            (children slave))
          (Everywhere-map (HasOwnerBelow fs.max_host_id) P (λ n o. (o.0, omega arith)) _ owned))

  -- A master that is ready to serve, and whose files have, at every depth, ids that it has handed out, is
  -- so again after a join, if there is an id left. The slave has the next id; the host at the index of
  -- that id is there and has that id; and so it is with the id of every file, at every depth.
  pub new_connection-AreOwned :
      fs.max_host_id + 1 < 2 ^ 64
      → new_connection archive d h address handle fs ≡ ok r
      → IsMaster r.fs
        × AreOwned r.fs
        × (r.slave_id ≡ fs.max_host_id)
        × (r.fs.max_host_id ≡ fs.max_host_id + 1)
        × IsHost r.fs.hosts r.slave_id
        × Everywhere (λ n. IsHost r.fs.hosts (attributes n).host_id) (top_level r.fs.dir_tree)
  new_connection-AreOwned room e =
      let (master, given, next) = new_connection-IsMaster archive d h address handle fs m room e in
      let all_owned = joined-AreOwned room e next in
      let started = m.started in
      (
        master,
        all_owned,
        given,
        next,
        host_at-IsNumbered r.fs.hosts r.slave_id master.numbered (omega (arith, given, started))
            (omega (arith, given, next, master.counted)),
        owned-IsHost r.fs master all_owned,
      )
