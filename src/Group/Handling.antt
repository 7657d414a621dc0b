-- ===== src/Group/Handling.antt =====
-- What the master of a group does when it hears an introduction and when a slave is gone.
use group_share_filesystem.DirTree.NodeSet.Ordered.{
  AreOrdered, insert_all-AreOrdered, erase_if-AreOrdered, set_host_children-AreOrdered,
}
use group_share_filesystem.Base.{
  ℕ, ◌+◌, ◌^◌, ◌<◌, ◌≡◌, ◌≢◌, refl, ap, sym, subst, ◌∙◌, Bytes, [], ◌∷◌, ◌++◌, length,
  length-append, ok, ok-injective, arith,
}
use group_share_filesystem.Archive.{Archive, IsLossless}
use group_share_filesystem.DirTree.Node.{TreeNode, children, set_host_children}
use group_share_filesystem.DirTree.NodeSet.{insert_all, erase_if}
use group_share_filesystem.DirTree.Merging.{rooted, top_level, top_level-with_children}
use group_share_filesystem.DirTree.{belongs_to}
use group_share_filesystem.Hosts.{Host}
use group_share_filesystem.Protocol.{section_of, hello_message, recognition_message, update_message}
use group_share_filesystem.Protocol.RoundTrip.{parse_for_master-hello_message}
use group_share_filesystem.BytesOrder.{host_to_network_64}
use group_share_filesystem.TcpMessager.Receiving.{received}
use group_share_filesystem.TcpManager.{read_from_slave}
use group_share_filesystem.UserFs.Membership.{IsMaster, admitted, new_connection-admitted}
use group_share_filesystem.UserFs.Invariant.{
  new_connection-IsMaster, left-IsMaster, disconnect_slave-left,
}
use group_share_filesystem.UserFs.{
  UserFs, Reply, write_all, write_to_peer, send_update, send_update_of, disconnect_slave,
}

-- The two parts of an introduction are shorter than it is.
parts-lt-length :
    (d h : Bytes) (n : ℕ) → length (hello_message d h) < n → (length d < n) × (length h < n)
unfolding hello_message
parts-lt-length d h n lt =
    let total = length-append (host_to_network_64 0) (section_of d ++ section_of h) in
    let both = length-append (section_of d) (section_of h) in
    let first = length-append (host_to_network_64 (length d)) d in
    let second = length-append (host_to_network_64 (length h)) h in
    (omega (arith, total, both, first), omega (arith, total, both, second))

module _ (archive : Archive) where
  -- The messages that carry a node's tree and hosts.
  abbrev pub update_of : UserFs → Bytes
  update_of fs = update_message (archive.save_tree fs.dir_tree) (archive.save_hosts fs.hosts)

  abbrev pub recognition_of : ℕ → UserFs → Bytes
  recognition_of id fs =
      recognition_message id (archive.save_tree fs.dir_tree) (archive.save_hosts fs.hosts)

  abbrev pub hello_of : TreeNode → Host → Bytes
  hello_of root host = hello_message (archive.save_tree (rooted root)) (archive.save_host host)

  -- A master has taken a slave in.
  pub record Admits (master : UserFs) (slave : TreeNode) (r : Reply) : Type 0 where
    pub good : IsMaster r.fs
    pub id_is : r.slave_id ≡ master.max_host_id
    pub grows : r.fs.max_host_id ≡ master.max_host_id + 1
    pub effects_are :
        r.effects ≡ write_to_peer (recognition_of r.slave_id r.fs) ∷ write_all (update_of r.fs) ∷ []
    pub files_are :
        top_level r.fs.dir_tree
        ≡ insert_all
            (set_host_children master.max_host_id (children slave))
            (top_level master.dir_tree)

  -- The sets of the master's tree are in their order again.
  pub Admits-AreOrdered :
      (master : UserFs) (slave : TreeNode) (r : Reply)
      → AreOrdered (children slave)
      → AreOrdered (top_level master.dir_tree)
      → Admits master slave r
      → AreOrdered (top_level r.fs.dir_tree)
  Admits-AreOrdered master slave r o m admits = subst AreOrdered (sym admits.files_are) (
      insert_all-AreOrdered (set_host_children master.max_host_id (children slave)) _
        (set_host_children-AreOrdered master.max_host_id (children slave) o) m)

  -- A master has let a slave go.
  pub record Dismisses (master : UserFs) (id : ℕ) (r : Reply) : Type 0 where
    pub good : IsMaster r.fs
    pub same_max : r.fs.max_host_id ≡ master.max_host_id
    pub effects_are : r.effects ≡ write_all (update_of r.fs) ∷ []
    pub files_are : top_level r.fs.dir_tree ≡ erase_if (belongs_to id) (top_level master.dir_tree)

  pub Dismisses-AreOrdered :
      (master : UserFs) (id : ℕ) (r : Reply)
      → AreOrdered (top_level master.dir_tree)
      → Dismisses master id r
      → AreOrdered (top_level r.fs.dir_tree)
  Dismisses-AreOrdered master id r m gone =
      subst AreOrdered (sym gone.files_are) (erase_if-AreOrdered (belongs_to id) _ m)

  module _ (lossless : IsLossless archive) (master : UserFs) (m : IsMaster master)
      (room : master.max_host_id + 1 < 2 ^ 64) where
    admitted-Admits :
        (address : Bytes) (slave : TreeNode) (host : Host)
        → IsMaster (admitted archive address master slave m.root host).fs
        → Admits master slave (admitted archive address master slave m.root host)
    unfolding send_update_of
    admitted-Admits address slave host good = record {
      good = good;
      id_is = refl;
      grows = omega arith;
      effects_are = refl;
      files_are =
          top_level-with_children m.root _
          ∙ ap (insert_all (set_host_children master.max_host_id (children slave)))
              (sym (ap top_level m.has_root));
    }

    pub read_from_slave-Admits :
        (address : Bytes) (handle : ℕ) (slave : TreeNode) (host : Host) {r : Reply}
        → AreOrdered (children slave)
        → length (hello_of slave host) < 2 ^ 48
        → read_from_slave archive (received (hello_of slave host)) address handle master ≡ ok r
        → Admits master slave r
    unfolding read_from_slave
    read_from_slave-Admits address handle slave host {r} order short e =
        let tree_seq = archive.save_tree (rooted slave) in
        let host_seq = archive.save_host host in
        let taken =
          new_connection-admitted archive tree_seq host_seq address handle master slave m.root host
            (lossless.load-save_tree (rooted slave) order) (lossless.load-save_host host)
            m.has_root in
        let (good, _, _) =
          new_connection-IsMaster archive tree_seq host_seq address handle master m room taken in
        let (lt, lh) = parts-lt-length tree_seq host_seq (2 ^ 48) short in
        let parsed = parse_for_master-hello_message tree_seq host_seq (0 ∷ []) lt lh in
        let is : r ≡ admitted archive address master slave m.root host =
          ok-injective (sym e ∙ rw parsed taken) in
        subst (Admits master slave) (sym is) (admitted-Admits address slave host good)

  pub disconnect_slave-Dismisses :
      (master : UserFs) (id : ℕ) {r : Reply}
      → IsMaster master
      → id ≢ 0
      → disconnect_slave archive id master ≡ ok r
      → Dismisses master id r
  unfolding send_update send_update_of
  disconnect_slave-Dismisses master id {r} m known e =
      let is =
        ok-injective (sym (disconnect_slave-left archive id master known m.root m.has_root) ∙ e) in
      subst (Dismisses master id) is (record {
        good = left-IsMaster archive id master known m;
        same_max = refl;
        effects_are = refl;
        files_are =
            top_level-with_children m.root _
            ∙ ap (erase_if (belongs_to id)) (sym (ap top_level m.has_root));
      })
