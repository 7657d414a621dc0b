-- ===== src/UserFs/Membership.antt =====
-- The master's side of joining and leaving in src/user_fs.cc: ids are handed out in order, the vector of
-- hosts is indexed by them, and every file at the top of the tree belongs to one of them.
use group_share_filesystem.Base.{
  ℕ, ◌+◌, ◌%◌, ◌^◌, ◌<◌, ◌≤◌, ◌≡◌, refl, ap, sym, ◌∙◌, Bytes, [], ◌∷◌, none, ok, ok-injective,
  arith, inl, inr, Option-cases, bind-eq-ok,
}
use group_share_filesystem.Archive.{Archive}
use group_share_filesystem.DirTree.Node.{TreeNode, node, attributes, children, set_host_children}
use group_share_filesystem.DirTree.NodeSet.{IsSorted, insert_all}
use group_share_filesystem.DirTree.NodeSet.Every.{Every}
use group_share_filesystem.DirTree.Merging.{rooted, merge_lem}
use group_share_filesystem.DirTree.Conflicts.{has_conflict-nil}
use group_share_filesystem.DirTree.{DirTree, with_children, merge, set_tree_host, has_conflict}
use group_share_filesystem.Hosts.{Host, size, push}
use group_share_filesystem.Hosts.Numbering.{IsNumbered}
use group_share_filesystem.Protocol.{recognition_message}
use group_share_filesystem.UserFs.{
  UserFs, write_to_peer, Reply, send_update_of, accept_slave, new_connection,
}

-- The owner of a node is an id that has been handed out.
abbrev pub HasOwnerBelow : ℕ → TreeNode → Type 0
HasOwnerBelow max n = (1 ≤ (attributes n).host_id) × ((attributes n).host_id < max)

-- A master that is ready to serve. What is said of owners is about the files at the top of its tree.
pub record IsMaster (fs : UserFs) : Type 0 where
  pub root : TreeNode
  pub has_root : fs.dir_tree ≡ rooted root
  pub sorted : IsSorted (children root)
  pub owned : Every (HasOwnerBelow fs.max_host_id) (children root)
  pub self : fs.host_id ≡ 1
  pub numbered : IsNumbered fs.hosts
  pub started : 2 ≤ fs.max_host_id
  pub counted : size fs.hosts ≡ fs.max_host_id

-- The tree of a slave as it is merged, and the master's tree after that.
abbrev pub joined : ℕ → TreeNode → TreeNode → DirTree
joined id slave master =
    with_children master (insert_all (set_host_children id (children slave)) (children master))

abbrev pub join : ℕ → Host → Bytes → Host
join id host address = record host { address = address; id = id }

set_tree_host_lem :
    (id : ℕ) (s : TreeNode)
    → (o : TreeNode) × (set_tree_host id (rooted s) ≡ ok (rooted o))
      × (children o ≡ set_host_children id (children s))
unfolding set_tree_host
set_tree_host_lem id (node a n cs) = (node a n (set_host_children id cs), refl, refl)

merge-joined :
    (id : ℕ) (slave master o : TreeNode) (t : DirTree)
    → t ≡ rooted master
    → children o ≡ set_host_children id (children slave)
    → merge t (rooted o) ≡ ok (joined id slave master)
merge-joined id slave master o t e c =
    ap (λ x. merge x (rooted o)) e
    ∙ merge_lem master o
    ∙ ap (λ s. ok (with_children master (insert_all s (children master)))) c

-- What `newConnection` leaves of a master with that root when such a slave comes.
abbrev pub admitted : Archive → Bytes → UserFs → TreeNode → TreeNode → Host → Reply
admitted archive address fs slave master host =
    let id = fs.max_host_id in
    let tree = joined id slave master in
    let hosts = push fs.hosts (join id host address) in
    let tree_seq = archive.save_tree tree in
    let hosts_seq = archive.save_hosts hosts in
    record {
      fs = record fs { max_host_id = (id + 1) % 2 ^ 64; dir_tree = tree; hosts = hosts };
      slave_id = id;
      effects =
          write_to_peer (recognition_message id tree_seq hosts_seq)
          ∷ send_update_of tree_seq hosts_seq;
    }

module _ (archive : Archive) (d h address : Bytes) (handle : ℕ) (fs : UserFs) where
  -- Whatever names the two trees have in common, the slave is taken in.
  pub new_connection-admitted :
      (slave master : TreeNode) (host : Host)
      → archive.load_tree d ≡ ok (rooted slave)
      → archive.load_host h ≡ ok host
      → fs.dir_tree ≡ rooted master
      → new_connection archive d h address handle fs
        ≡ ok (admitted archive address fs slave master host)
  unfolding new_connection accept_slave
  new_connection-admitted slave master host loaded_tree loaded_host has_root =
      let no_conflict : has_conflict fs.dir_tree (rooted slave) ≡ ok [] =
        ap (λ t. has_conflict t (rooted slave)) has_root ∙ has_conflict-nil master slave in
      let (o, marked, kids) = set_tree_host_lem fs.max_host_id slave in
      rw (
        loaded_tree,
        loaded_host,
        no_conflict,
        marked,
        merge-joined fs.max_host_id slave master o fs.dir_tree has_root kids,
      )

  new_connection_rootless :
      (t : DirTree)
      → archive.load_tree d ≡ ok t
      → t.root ≡ none
      → {r : Reply} → new_connection archive d h address handle fs ≡ ok r
      → ⊥
  unfolding new_connection has_conflict
  new_connection_rootless t l e k = ground arith

  -- A call that succeeds was given a tree with a root and a host.
  new_connection-eq-ok :
      {r : Reply}
      → new_connection archive d h address handle fs ≡ ok r
      → (slave : TreeNode) × (host : Host) × (archive.load_tree d ≡ ok (rooted slave))
        × (archive.load_host h ≡ ok host)
  unfolding new_connection
  new_connection-eq-ok e =
      let (t, loaded_tree, e') = bind-eq-ok (archive.load_tree d) _ e in
      let (host, loaded_host, e'') = bind-eq-ok (archive.load_host h) _ e' in
      elim (Option-cases t.root) [
        | inl no_root ↦ absurd (new_connection_rootless t loaded_tree no_root e)
        | inr (slave, root) ↦
            (slave, host, loaded_tree ∙ ap (λ x. ok (record { root = x })) root, loaded_host)
      ]

  -- A call that succeeds leaves what `admitted` says.
  pub new_connection-IsAdmitted :
      {r : Reply} (m : IsMaster fs)
      → new_connection archive d h address handle fs ≡ ok r
      → (slave : TreeNode) × (host : Host) × (r ≡ admitted archive address fs slave m.root host)
  new_connection-IsAdmitted m e =
      let (slave, host, lt, lh) = new_connection-eq-ok e in
      (
        slave,
        host,
        ok-injective (sym e ∙ new_connection-admitted slave m.root host lt lh m.has_root),
      )
