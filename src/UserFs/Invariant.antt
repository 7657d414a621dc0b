-- ===== src/UserFs/Invariant.antt =====
-- What holds of a master of src/user_fs.cc through every join and leave, and what a leave undoes.
use native.Mathlib.Nat.{mod-eq_of_lt}
use group_share_filesystem.Base.{
  ℕ, suc, ◌+◌, ◌%◌, ◌^◌, ◌<◌, ◌≤◌, ◌≡◌, ◌≢◌, refl, ap, sym, subst, ◌∙◌, Bytes, ok, arith, ==_ne,
  false,
}
use group_share_filesystem.Archive.{Archive}
use group_share_filesystem.DirTree.Node.{
  TreeNode, node, Children, attributes, children, set_host_children,
}
use group_share_filesystem.DirTree.NodeSet.{IsSorted, insert_all, erase_if}
use group_share_filesystem.DirTree.NodeSet.Every.{
  Every, Every-map, insert_all-Every, erase_if-Every, erase_if-fails,
}
use group_share_filesystem.DirTree.NodeSet.Sorted.{insert_all-IsSorted, erase_if-IsSorted}
use group_share_filesystem.DirTree.Merging.{
  rooted, top_level, top_level-with_children, NoneOf, set_host_children-AllOf, erase_if-insert_all,
  erase_if-NoneOf,
}
use group_share_filesystem.DirTree.{DirTree, with_children, remove_of, belongs_to}
use group_share_filesystem.Hosts.{Host}
use group_share_filesystem.Hosts.Numbering.{push-IsNumbered, size-push}
use group_share_filesystem.UserFs.{UserFs, Reply, send_update, new_connection, disconnect_slave}
use group_share_filesystem.UserFs.Membership.{
  HasOwnerBelow, IsMaster, joined, join, admitted, new_connection-IsAdmitted,
}

-- `with_children` and its parts.
pub with_children-rooted :
    (r : TreeNode) (s : Children)
    → (o : TreeNode) × (with_children r s ≡ rooted o) × (children o ≡ s)
with_children-rooted (node a n cs) s = (node a n s, refl, refl)

pub not_belongs : (id : ℕ) (n : TreeNode) → belongs_to id n ≡ false → (attributes n).host_id ≢ id
not_belongs id n h e = ground arith

with_children_self : (r : TreeNode) → with_children r (children r) ≡ rooted r
with_children_self (node a n cs) = refl

with_children_again :
    (r o : TreeNode) (s t : Children)
    → with_children r s ≡ rooted o
    → with_children o t ≡ with_children r t
with_children_again (node a n cs) (node b m ds) s t e = ground arith

-- One more id makes room for the owners that there were.
owners_grow :
    (max : ℕ) (s : Children) → Every (HasOwnerBelow max) s → Every (HasOwnerBelow (suc max)) s
owners_grow max = Every-map _ _ (λ n h. (h.0, omega arith))

admitted-owned :
    (max : ℕ) (slave master : Children)
    → 1 ≤ max
    → Every (HasOwnerBelow max) master
    → Every (HasOwnerBelow (suc max)) (insert_all (set_host_children max slave) master)
admitted-owned max slave master pos e =
    insert_all-Every (HasOwnerBelow (suc max)) (set_host_children max slave) master
      (Every-map _ _ (λ n h. (omega arith, omega arith)) (set_host_children max slave)
        (set_host_children-AllOf max slave))
      (owners_grow max master e)

admitted-IsMaster :
    (archive : Archive) (address : Bytes) (fs : UserFs) (slave : TreeNode) (host : Host)
    (m : IsMaster fs)
    → fs.max_host_id + 1 < 2 ^ 64
    → IsMaster (admitted archive address fs slave m.root host).fs
admitted-IsMaster archive address fs slave host m room =
    let merged = insert_all (set_host_children fs.max_host_id (children slave)) (children m.root) in
    let next : (fs.max_host_id + 1) % 2 ^ 64 ≡ suc fs.max_host_id = omega arith in
    let (o, has_root, kids) = with_children-rooted m.root merged in
    record {
      root = o;
      has_root = has_root;
      sorted = subst IsSorted (sym kids) (
          insert_all-IsSorted (set_host_children fs.max_host_id (children slave)) (children m.root)
            m.sorted);
      owned =
          rw (kids, next)
            (admitted-owned fs.max_host_id (children slave) (children m.root) (omega arith)
              m.owned);
      self = m.self;
      numbered =
          push-IsNumbered fs.hosts (join fs.max_host_id host address) m.numbered (sym m.counted);
      started = omega arith;
      counted = size-push fs.hosts (join fs.max_host_id host address) ∙ ap suc m.counted ∙ sym next;
    }

-- What is left when a slave's files are removed.
abbrev pub left_tree : ℕ → TreeNode → DirTree
left_tree id master = with_children master (erase_if (belongs_to id) (children master))

abbrev pub left : ℕ → TreeNode → UserFs → UserFs
left id master fs = record fs { dir_tree = left_tree id master }

-- The id that comes next owns nothing yet.
pub owned-NoneOf : (max : ℕ) (s : Children) → Every (HasOwnerBelow max) s → NoneOf max s
owned-NoneOf max = Every-map _ _ (λ n h. omega arith)

-- Taking out what a slave has just brought.
left_tree-joined :
    (id : ℕ) (slave master o : TreeNode)
    → NoneOf id (children master)
    → joined id slave master ≡ rooted o
    → left_tree id o ≡ rooted master
left_tree-joined id slave master o fresh e =
    let marked = set_host_children id (children slave) in
    let kids : children o ≡ insert_all marked (children master) =
      sym (ap top_level e) ∙ top_level-with_children master (insert_all marked (children master)) in
    with_children_again master o _ _ e
    ∙ ap (with_children master) (
        ap (erase_if (belongs_to id)) kids
        ∙ erase_if-insert_all id marked (children master)
            (set_host_children-AllOf id (children slave))
        ∙ erase_if-NoneOf id (children master) fresh)
    ∙ with_children_self master

remove_of-left_tree :
    (id : ℕ) (master : TreeNode) (t : DirTree)
    → t ≡ rooted master
    → remove_of id t ≡ ok (left_tree id master)
unfolding remove_of
remove_of-left_tree id master t e = ap (remove_of id) e

module _ (archive : Archive) (id : ℕ) (fs : UserFs) (known : id ≢ 0) where
  -- The call for a slave that has an id.
  pub disconnect_slave-left :
      (master : TreeNode)
      → fs.dir_tree ≡ rooted master
      → disconnect_slave archive id fs
        ≡ ok (record {
          fs = left id master fs;
          slave_id = 0;
          effects = send_update archive (left id master fs);
        })
  unfolding disconnect_slave
  disconnect_slave-left master has_root =
      rw (==_ne id 0 known, remove_of-left_tree id master fs.dir_tree has_root)

  pub left-IsMaster : (m : IsMaster fs) → IsMaster (left id m.root fs)
  left-IsMaster m =
      let kept = erase_if (belongs_to id) (children m.root) in
      let (o, has_root, kids) = with_children-rooted m.root kept in
      record {
        root = o;
        has_root = has_root;
        sorted = rw kids (erase_if-IsSorted (belongs_to id) (children m.root) m.sorted);
        owned = rw kids (
            erase_if-Every (HasOwnerBelow fs.max_host_id) (belongs_to id) (children m.root)
              m.owned);
        self = m.self;
        numbered = m.numbered;
        started = m.started;
        counted = m.counted;
      }

  -- When a slave that has an id is gone, a master that was ready to serve removes its files, takes
  -- the id out of the handle, and is ready to serve again.
  disconnect_slave-IsMaster :
      IsMaster fs
      → (q : Reply) × (disconnect_slave archive id fs ≡ ok q)
        × IsMaster q.fs
        × NoneOf id (top_level q.fs.dir_tree)
        × (q.slave_id ≡ 0)
  disconnect_slave-IsMaster m = (
    _,
    disconnect_slave-left m.root m.has_root,
    left-IsMaster m,
    rw (top_level-with_children m.root (erase_if (belongs_to id) (children m.root)))
        (Every-map _ _ (not_belongs id) _ (erase_if-fails (belongs_to id) (children m.root))),
    refl,
  )

module _ (archive : Archive) (d h address : Bytes) (handle : ℕ) (fs : UserFs) {r : Reply}
    (m : IsMaster fs) where
  -- A master that is ready to serve is so again after a join, if there is an id left, and the slave has
  -- the next id.
  pub new_connection-IsMaster :
      fs.max_host_id + 1 < 2 ^ 64
      → new_connection archive d h address handle fs ≡ ok r
      → IsMaster r.fs × (r.slave_id ≡ fs.max_host_id) × (r.fs.max_host_id ≡ fs.max_host_id + 1)
  new_connection-IsMaster room e =
      let (slave, host, is) = new_connection-IsAdmitted archive d h address handle fs m e in
      rw is (admitted-IsMaster archive address fs slave host m room, refl, mod-eq_of_lt room)

  -- If a slave joins a master that is ready to serve and goes at once, the master's tree is what
  -- it was before the slave came.
  pub disconnect_slave-new_connection :
      new_connection archive d h address handle fs ≡ ok r
      → (q : Reply) × (disconnect_slave archive r.slave_id r.fs ≡ ok q)
        × (q.fs.dir_tree ≡ fs.dir_tree)
  disconnect_slave-new_connection e =
      let (slave, host, is) = new_connection-IsAdmitted archive d h address handle fs m e in
      let marked = set_host_children fs.max_host_id (children slave) in
      let (o, has_root, kids) = with_children-rooted m.root (insert_all marked (children m.root)) in
      let id = fs.max_host_id in
      let joined_fs = (admitted archive address fs slave m.root host).fs in
      let known : id ≢ 0 = omega (arith, m.started) in
      rw is (
        _,
        disconnect_slave-left archive id joined_fs known o has_root,
        left_tree-joined id slave m.root o (owned-NoneOf id (children m.root) m.owned) has_root
            ∙ sym m.has_root,
      )
