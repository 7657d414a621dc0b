-- ===== src/TcpManager/Replication.antt =====
-- From the master of src/user_fs.cc through the protocol of src/tcp_manager.cc to its slaves: what a
-- slave shows after a message.
use group_share_filesystem.Base.{
  ℕ, suc, ◌^◌, ◌<◌, ◌≡◌, refl, ap, sym, subst, ◌∙◌, false, Bytes, [], ◌∷◌, length, ok,
}
use group_share_filesystem.Archive.{Archive, IsLossless}
use group_share_filesystem.DirTree.Node.{TreeNode, node, Children, children}
use group_share_filesystem.DirTree.NodeSet.Ordered.{AreOrdered}
use group_share_filesystem.DirTree.Merging.{rooted, top_level, top_level-with_children}
use group_share_filesystem.DirTree.{DirTree, replace_children, with_children}
use group_share_filesystem.Hosts.{Hosts, push}
use group_share_filesystem.TcpMessager.Receiving.{received}
use group_share_filesystem.Protocol.{recognition_message, update_message}
use group_share_filesystem.Protocol.RoundTrip.{
  parse_for_slave-recognition_message, parse_for_slave-update_message,
}
use group_share_filesystem.TcpManager.{read_from_master}
use group_share_filesystem.UserFs.Membership.{IsMaster, joined, join, new_connection-IsAdmitted}
use group_share_filesystem.UserFs.{
  UserFs, write_all, write_to_peer, Reply, new_connection, send_update, slave_recognized,
  update_info,
}

-- The two nodes show the same files and know the same hosts.
pub record SeesSame (slave master : UserFs) : Type 0 where
  pub same_files : top_level slave.dir_tree ≡ top_level master.dir_tree
  pub same_hosts : slave.hosts ≡ master.hosts

replace_children_lem :
    (r m : TreeNode) (t u : DirTree)
    → t ≡ rooted r
    → u ≡ rooted m
    → replace_children t u ≡ ok (with_children r (children m))
unfolding replace_children
replace_children_lem r m t u e f = rw (e, f)

-- A slave after an update, and after its recognition.
abbrev pub updated : UserFs → TreeNode → TreeNode → Hosts → UserFs
updated slave own root hosts = record slave {
  dir_tree = with_children own (children root);
  hosts = hosts;
}

abbrev pub recognized : ℕ → UserFs → TreeNode → TreeNode → Hosts → UserFs
recognized id slave own root hosts = record slave {
  host_id = id;
  dir_tree = with_children own (children root);
  hosts = hosts;
  main_thread_is_waiting = false;
  slave_wait_sem = suc slave.slave_wait_sem;
}

module _ (archive : Archive) (lossless : IsLossless archive) (slave : UserFs) (own root : TreeNode)
    (has_root : slave.dir_tree ≡ rooted own) where
  open lossless use {load-save_tree, load-save_hosts}

  -- What the two handlers of a slave make of a tree and hosts that were saved elsewhere.
  pub update_info_lem :
      (tree : DirTree) (hosts : Hosts)
      → tree ≡ rooted root
      → AreOrdered (top_level tree)
      → update_info archive (archive.save_tree tree) (archive.save_hosts hosts) slave
        ≡ ok (updated slave own root hosts)
  unfolding update_info
  update_info_lem tree hosts e o = rw (
    load-save_tree tree o,
    load-save_hosts hosts,
    replace_children_lem own root slave.dir_tree tree has_root e,
  )

  slave_recognized_lem :
      (id : ℕ) (tree : DirTree) (hosts : Hosts)
      → tree ≡ rooted root
      → AreOrdered (top_level tree)
      → slave_recognized archive id (archive.save_tree tree) (archive.save_hosts hosts) slave
        ≡ ok (recognized id slave own root hosts)
  unfolding slave_recognized
  slave_recognized_lem id tree hosts e o = rw (
    load-save_tree tree o,
    load-save_hosts hosts,
    replace_children_lem own root slave.dir_tree tree has_root e,
  )

  pub replaced_files :
      (tree : DirTree)
      → tree ≡ rooted root
      → top_level (with_children own (children root)) ≡ top_level tree
  replaced_files tree e = top_level-with_children own (children root) ∙ sym (ap top_level e)

  -- If the archives lose nothing, a slave that reads the update of a node, both with a root, shows the
  -- same files and hosts as that node, if the saved tree and hosts are shorter than 2 ^ 48 bytes and
  -- the sets of the tree are in their order.
  read_from_master-send_update :
      (master : UserFs)
      → master.dir_tree ≡ rooted root
      → AreOrdered (top_level master.dir_tree)
      → length (archive.save_tree master.dir_tree) < 2 ^ 48
      → length (archive.save_hosts master.hosts) < 2 ^ 48
      → (message : Bytes) × (after : UserFs) × (send_update archive master ≡ write_all message ∷ [])
        × (read_from_master archive (received message) slave ≡ ok after)
        × SeesSame after master
  unfolding send_update read_from_master
  read_from_master-send_update master e o lt lh = (
    update_message (archive.save_tree master.dir_tree) (archive.save_hosts master.hosts),
    updated slave own root master.hosts,
    refl,
    rw
        (parse_for_slave-update_message (archive.save_tree master.dir_tree)
          (archive.save_hosts master.hosts) (0 ∷ []) lt lh)
        (update_info_lem master.dir_tree master.hosts e o),
    record { same_files = replaced_files master.dir_tree e; same_hosts = refl },
  )

  -- A recognition in flight: the message that `newConnection` writes to the new slave.
  pub recognition_lem :
      (id : ℕ) (tree : DirTree) (hosts : Hosts)
      → tree ≡ rooted root
      → AreOrdered (top_level tree)
      → id < 2 ^ 48
      → length (archive.save_tree tree) < 2 ^ 48
      → length (archive.save_hosts hosts) < 2 ^ 48
      → read_from_master archive
          (received (recognition_message id (archive.save_tree tree) (archive.save_hosts hosts)))
          slave
        ≡ ok (recognized id slave own root hosts)
  unfolding read_from_master
  recognition_lem id tree hosts e o li lt lh =
      rw
        (parse_for_slave-recognition_message id (archive.save_tree tree) (archive.save_hosts hosts)
          (0 ∷ []) li lt lh)
        (slave_recognized_lem id tree hosts e o)

pub with_children_root :
    (r : TreeNode) (s : Children) → (o : TreeNode) × (with_children r s ≡ rooted o)
with_children_root (node a n cs) s = (node a n s, refl)

-- If the archives lose nothing, and a slave with a root introduces itself to a master that is ready to
-- serve: the master's first call is to write a message to the slave, and the slave that reads it has the
-- id that the master gave it, shows the files and hosts of the master after the join, and wakes the thread
-- that waits for this. The ids and the saved trees and hosts must fit 48 bits of length, and the sets of
-- the master's new tree must be in their order.
pub read_from_master-new_connection :
    (archive : Archive) (lossless : IsLossless archive) (slave master : UserFs) (own : TreeNode)
    (d h address : Bytes) (handle : ℕ) {r : Reply}
    → slave.dir_tree ≡ rooted own
    → IsMaster master
    → new_connection archive d h address handle master ≡ ok r
    → master.max_host_id < 2 ^ 48
    → length (archive.save_tree r.fs.dir_tree) < 2 ^ 48
    → length (archive.save_hosts r.fs.hosts) < 2 ^ 48
    → AreOrdered (top_level r.fs.dir_tree)
    → (message : Bytes) × (after : UserFs) × (r.effects
        ≡ write_to_peer message ∷ send_update archive r.fs)
      × (read_from_master archive (received message) slave ≡ ok after)
      × SeesSame after r.fs
      × (after.host_id ≡ r.slave_id)
      × (after.slave_wait_sem ≡ suc slave.slave_wait_sem)
unfolding send_update
read_from_master-new_connection archive lossless slave master own d h address handle {r} has_root m
      e li lt lh o =
    let (new_slave, host, is) = new_connection-IsAdmitted archive d h address handle master m e in
    let id = master.max_host_id in
    let hosts = push master.hosts (join id host address) in
    let tree = joined id new_slave m.root in
    let (root, rooted_root) = with_children_root m.root _ in
    let lt' : length (archive.save_tree tree) < 2 ^ 48 =
      subst (λ x. length (archive.save_tree x.fs.dir_tree) < 2 ^ 48) is lt in
    let lh' : length (archive.save_hosts hosts) < 2 ^ 48 =
      subst (λ x. length (archive.save_hosts x.fs.hosts) < 2 ^ 48) is lh in
    let o' : AreOrdered (top_level tree) = subst (λ x. AreOrdered (top_level x.fs.dir_tree)) is o in
    rw is (
      recognition_message id (archive.save_tree tree) (archive.save_hosts hosts),
      recognized id slave own root hosts,
      refl,
      recognition_lem archive lossless slave own root has_root id tree hosts rooted_root o' li lt'
          lh',
      record {
        same_files = replaced_files archive lossless slave own root has_root tree rooted_root;
        same_hosts = refl;
      },
      refl,
      refl,
    )
