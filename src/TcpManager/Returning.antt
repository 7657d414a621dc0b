-- ===== src/TcpManager/Returning.antt =====
-- A slave that joins a master and then loses the connection: newConnection, slaveRecognized and disconnect
-- of src/user_fs.cc with the protocol of src/tcp_manager.cc between them.
use mathlib.Core.Option.{or_else}
use group_share_filesystem.Base.{
  ℕ, ◌^◌, ◌<◌, ◌≡◌, refl, sym, ap, ◌∙◌, ==_iff, ==_ne, true, false, not, Bool, Bytes, ◌∷◌, length,
  Option, none, some, Option-cases, inl, inr, ok, ok-injective, subst,
}
use group_share_filesystem.Archive.{Archive, IsLossless}
use group_share_filesystem.DirTree.Merging.{
  rooted, top_level, top_level-with_children, NoneOf, AllOf, set_host_children-AllOf,
}
use group_share_filesystem.DirTree.Node.{
  TreeNode, Children, attributes, children, set_host_children,
}
use group_share_filesystem.DirTree.NodeSet.{lookup, insert_all, erase_if, IsSorted}
use group_share_filesystem.DirTree.NodeSet.Every.{lookup-Every}
use group_share_filesystem.DirTree.NodeSet.Lookup.{lookup-insert_all, lookup-erase_if, unless}
use group_share_filesystem.DirTree.NodeSet.Sorted.{insert_all-IsSorted}
use group_share_filesystem.DirTree.NodeSet.Ordered.{
  AreOrdered, insert_all-AreOrdered, set_host_children-AreOrdered,
}
use group_share_filesystem.DirTree.{belongs_to, with_children}
use group_share_filesystem.Hosts.{Host, push}
use group_share_filesystem.Protocol.{recognition_message}
use group_share_filesystem.TcpManager.Replication.{recognized, recognition_lem}
use group_share_filesystem.TcpManager.{read_from_master}
use group_share_filesystem.TcpMessager.Receiving.{received}
use group_share_filesystem.UserFs.Invariant.{with_children-rooted, owned-NoneOf}
use group_share_filesystem.UserFs.Leaving.{own_tree, remove_not_of-rooted}
use group_share_filesystem.UserFs.Membership.{
  IsMaster, joined, join, admitted, new_connection-admitted,
}
use group_share_filesystem.UserFs.{
  UserFs, Reply, write_to_peer, new_connection, send_update, disconnect_from_master,
}

-- What is under a name that others may have taken.
abbrev pub unless_taken : Option TreeNode → Option TreeNode → Option TreeNode
unless_taken none mine = mine
unless_taken (some n) mine = none

abbrev foreign : ℕ → TreeNode → Bool
foreign id n = not (belongs_to id n)

module _ (id : ℕ) (k : Bytes) (mine theirs : Children) (sorted : IsSorted theirs)
    (not_theirs : NoneOf id theirs) (all_mine : AllOf id mine) where
  kept : unless (foreign id) (lookup k mine) ≡ lookup k mine
  kept = elim (Option-cases (lookup k mine)) [
    | inl missing ↦ rw missing refl
    | inr (n, found) ↦
        (let own : belongs_to id n ≡ true =
            (==_iff (attributes n).host_id id).1 (lookup-Every _ k mine n all_mine found) in
          rw (found, own) refl)
  ]

  -- What is left of a merged set when the elements of all others have been erased.
  pub lookup-foreign :
      lookup k (erase_if (foreign id) (insert_all mine theirs))
      ≡ unless_taken (lookup k theirs) (lookup k mine)
  unfolding or_else
  lookup-foreign =
      lookup-erase_if (foreign id) k (insert_all mine theirs)
        (insert_all-IsSorted mine theirs sorted)
      ∙ ap (unless (foreign id)) (lookup-insert_all k mine theirs sorted)
      ∙ elim (Option-cases (lookup k theirs)) [
        | inl missing ↦ rw missing kept
        | inr (n, found) ↦
            (let other : belongs_to id n ≡ false =
                ==_ne (attributes n).host_id id (lookup-Every _ k theirs n not_theirs found) in
              rw (found, other) refl)
      ]

-- A slave with the root `own` and the files of a merged set, when those of the others are gone.
left_alone :
    (id : ℕ) (k : Bytes) (own root : TreeNode) (mine theirs : Children)
    → IsSorted theirs
    → NoneOf id theirs
    → AllOf id mine
    → children root ≡ insert_all mine theirs
    → (o : TreeNode) × (with_children own (children root) ≡ rooted o)
      × (lookup k (top_level (own_tree id o)) ≡ unless_taken (lookup k theirs) (lookup k mine))
left_alone id k own root mine theirs sorted not_theirs all_mine kids =
    let (o, rooted_o, kids_o) = with_children-rooted own (children root) in
    (
      o,
      rooted_o,
      ap (lookup k) (top_level-with_children o (erase_if (foreign id) (children o)))
          ∙ ap (λ s. lookup k (erase_if (foreign id) s)) (kids_o ∙ kids)
          ∙ lookup-foreign id k mine theirs sorted not_theirs all_mine,
    )

-- If the archives lose nothing, and a slave with a root introduces its tree to a master that is ready to
-- serve: the slave that has read the first message which the master writes to it, and then loses the
-- connection, has under each name that the master did not have what it has scanned, marked with its new
-- id, and nothing else. The ids and the saved trees and hosts must fit 48 bits of length, and the sets of
-- both trees must be in their order.
pub disconnect_from_master-new_connection :
    (archive : Archive) (lossless : IsLossless archive) (slave master : UserFs) (own : TreeNode)
    (host : Host) (h address : Bytes) (handle : ℕ) (k : Bytes) {r : Reply}
    → slave.dir_tree ≡ rooted own
    → AreOrdered (children own)
    → IsMaster master
    → AreOrdered (top_level master.dir_tree)
    → archive.load_host h ≡ ok host
    → new_connection archive (archive.save_tree (rooted own)) h address handle master ≡ ok r
    → master.max_host_id < 2 ^ 48
    → length (archive.save_tree r.fs.dir_tree) < 2 ^ 48
    → length (archive.save_hosts r.fs.hosts) < 2 ^ 48
    → (message : Bytes) × (member after : UserFs) × (r.effects
        ≡ write_to_peer message ∷ send_update archive r.fs)
      × (read_from_master archive (received message) slave ≡ ok member)
      × (disconnect_from_master archive member ≡ ok after)
      × (lookup k (top_level after.dir_tree)
          ≡ unless_taken
              (lookup k (top_level master.dir_tree))
              (lookup k (set_host_children r.slave_id (children own))))
unfolding send_update disconnect_from_master
disconnect_from_master-new_connection archive lossless slave master own host h address handle k {r}
      has_root own_order m order loaded e li lt lh =
    let id = master.max_host_id in
    let marked = set_host_children id (children own) in
    let theirs = children m.root in
    let hosts = push master.hosts (join id host address) in
    let tree = joined id own m.root in
    let is : r ≡ admitted archive address master own m.root host = ok-injective (
      sym e
      ∙ new_connection-admitted archive (archive.save_tree (rooted own)) h address handle master own
          m.root host (lossless.load-save_tree (rooted own) own_order) loaded m.has_root) in
    let lt' : length (archive.save_tree tree) < 2 ^ 48 =
      subst (λ x. length (archive.save_tree x.fs.dir_tree) < 2 ^ 48) is lt in
    let lh' : length (archive.save_hosts hosts) < 2 ^ 48 =
      subst (λ x. length (archive.save_hosts x.fs.hosts) < 2 ^ 48) is lh in
    let their_order : AreOrdered theirs = subst (λ t. AreOrdered (top_level t)) m.has_root order in
    let tree_order : AreOrdered (top_level tree) =
      subst AreOrdered (sym (top_level-with_children m.root (insert_all marked theirs))) (
        insert_all-AreOrdered marked theirs
          (set_host_children-AreOrdered id (children own) own_order) their_order) in
    let (root, rooted_root, kids) = with_children-rooted m.root (insert_all marked theirs) in
    let (o, rooted_o, found) =
      left_alone id k own root marked theirs m.sorted (owned-NoneOf id theirs m.owned)
        (set_host_children-AllOf id (children own)) kids in
    let member = recognized id slave own root hosts in
    rw is (
      recognition_message id (archive.save_tree tree) (archive.save_hosts hosts),
      member,
      record member { dir_tree = own_tree id o },
      refl,
      recognition_lem archive lossless slave own root has_root id tree hosts rooted_root tree_order
          li lt' lh',
      rw (remove_not_of-rooted id o member.dir_tree rooted_o) refl,
      found ∙ ap (λ t. unless_taken (lookup k (top_level t)) (lookup k marked)) (sym m.has_root),
    )
