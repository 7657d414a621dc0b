-- ===== src/UserFs/Starting.antt =====
-- What a node is after the calls of src/gsfs.cc that start it.
use group_share_filesystem.DirTree.NodeSet.Ordered.{AreOrdered}
use group_share_filesystem.Base.{
  ℕ, true, ◌≡◌, refl, ap, sym, ◌∙◌, Bytes, List, [], ◌∷◌, some, ok, ok-injective, or_fault,
  filesystem_error, bind-eq-ok, arith,
}
use group_share_filesystem.Archive.{Archive}
use group_share_filesystem.DirTree.Node.{
  directory, TreeNode, node, Children, nil, attributes, children,
}
use group_share_filesystem.DirTree.NodeSet.Every.{Every-map}
use group_share_filesystem.DirTree.Merging.{rooted, top_level}
use group_share_filesystem.Hosts.{Host, host_at, push}
use group_share_filesystem.Scan.{traverse_directory}
use group_share_filesystem.Scan.Laws.{
  IsShare, IsShare-AreOrdered, IsShare-IsSorted, IsShare-AllOf, traverse_directory-IsShare,
}
use group_share_filesystem.Protocol.{hello_message}
use group_share_filesystem.UserFs.Membership.{IsMaster, HasOwnerBelow}
use group_share_filesystem.UserFs.Start.{
  Surroundings, serving, waiting, add_trailing_slash, set_master, init_dir_tree, start_master,
  start_slave,
}
use group_share_filesystem.UserFs.{UserFs, Effect, write_all, new_user_fs}

-- The root of a node that has scanned its directory.
abbrev pub scanned_root : Surroundings → ℕ → ℕ → Children → TreeNode
scanned_root os host links shared =
    node
      (record os.memory {
        type = directory;
        size = 0;
        host_id = host;
        mtime = os.now;
        num_links = links;
      })
      [] shared

abbrev pub own_host : Surroundings → ℕ → Bytes → ℕ → ℕ → Host
own_host os id addr tcp_port ssh_port = record {
  id = id;
  address = addr;
  working_dir = add_trailing_slash os.absolute_dir;
  tcp_port = tcp_port;
  ssh_port = ssh_port;
}

owned_below : (n : TreeNode) → (attributes n).host_id ≡ 1 → HasOwnerBelow 2 n
owned_below n e = (omega (arith, e), omega (arith, e))

module _ (archive : Archive) (os : Surroundings) (addr : Bytes) (tcp_port ssh_port links : ℕ)
    (shared : Children) (linked : os.root_links ≡ some links) where
  -- A master whose scan ends is ready to serve, with the files of its scan: it has a tree with its
  -- root, and its own host at the indices 0 and 1.
  pub start_master-IsMaster :
      traverse_directory os.memory 1 os.listing nil ≡ ok shared
      → (fs : UserFs) × (start_master archive os addr tcp_port ssh_port ≡ ok (serving fs))
        × IsMaster fs
        × (fs.dir_tree ≡ rooted (scanned_root os 1 links shared))
  unfolding start_master host_at push
  start_master-IsMaster scan =
      let share = traverse_directory-IsShare os.memory 1 os.listing shared scan in
      let own = own_host os 1 addr tcp_port ssh_port in
      (
        record new_user_fs {
          host_id = 1;
          working_dir = add_trailing_slash os.absolute_dir;
          dir_tree = rooted (scanned_root os 1 links shared);
          hosts = record { hosts = own ∷ own ∷ [] };
        },
        rw (linked, scan),
        record {
          root = scanned_root os 1 links shared;
          has_root = refl;
          sorted = IsShare-IsSorted 1 shared share;
          owned = Every-map _ _ owned_below _ (IsShare-AllOf 1 shared share);
          self = refl;
          numbered = (refl, (refl, tt));
          started = omega arith;
          counted = refl;
        },
        refl,
      )

  -- A slave whose scan ends writes one message, which holds that scan and its host, and waits.
  pub start_slave_lem :
      traverse_directory os.memory 0 os.listing nil ≡ ok shared
      → (fs : UserFs) × (start_slave archive os addr tcp_port ssh_port
          ≡ ok (
              waiting fs (
                write_all (
                  hello_message
                    (archive.save_tree (rooted (scanned_root os 0 links shared)))
                    (archive.save_host (own_host os 0 addr tcp_port ssh_port)))
                ∷ [])))
        × (fs.dir_tree ≡ rooted (scanned_root os 0 links shared))
        × (fs.main_thread_is_waiting ≡ true)
        × (fs.slave_wait_sem ≡ 0)
  unfolding start_slave host_at push
  start_slave_lem scan = (
    record new_user_fs {
      working_dir = add_trailing_slash os.absolute_dir;
      dir_tree = rooted (scanned_root os 0 links shared);
      hosts = record { hosts = own_host os 0 addr tcp_port ssh_port ∷ [] };
    },
    rw (linked, scan),
    refl,
    refl,
    refl,
  )

-- A scan that ends has a count of links and a list of entries.
init_dir_tree-eq-ok :
    (os : Surroundings) (unscanned : UserFs) {fs : UserFs}
    → init_dir_tree os unscanned ≡ ok fs
    → (links : ℕ) × (shared : Children) × (os.root_links ≡ some links)
      × (traverse_directory os.memory unscanned.host_id os.listing nil ≡ ok shared)
unfolding init_dir_tree
init_dir_tree-eq-ok os unscanned e =
    let (links, linked, e') = bind-eq-ok (or_fault filesystem_error os.root_links) _ e in
    let (shared, scan, _) =
      bind-eq-ok (traverse_directory os.memory unscanned.host_id os.listing nil) _ e' in
    (links, shared, ground (arith, linked), scan)

waiting-injective :
    {fs gs : UserFs} {es ds : List Effect} → waiting fs es ≡ waiting gs ds → (fs ≡ gs) × (es ≡ ds)
waiting-injective e = (cc, cc)

serving-injective : {fs gs : UserFs} → serving fs ≡ serving gs → fs ≡ gs
serving-injective e = cc

module _ (archive : Archive) (os : Surroundings) (addr : Bytes) (tcp_port ssh_port : ℕ)
    {fs : UserFs} where
  -- A master that serves is ready for it, and all its files are its own, at every depth.
  pub start_master-eq-ok :
      start_master archive os addr tcp_port ssh_port ≡ ok (serving fs)
      → IsMaster fs × IsShare 1 (top_level fs.dir_tree)
  unfolding start_master
  start_master-eq-ok e =
      let (_, scanned, _) = bind-eq-ok (init_dir_tree os (set_master new_user_fs)) _ e in
      let (links, shared, linked, scan) = init_dir_tree-eq-ok os (set_master new_user_fs) scanned in
      let (gs, started, good, files) =
        start_master-IsMaster archive os addr tcp_port ssh_port links shared linked scan in
      let same : fs ≡ gs = serving-injective (ok-injective (sym e ∙ started)) in
      let share = traverse_directory-IsShare os.memory 1 os.listing shared scan in
      rw same (good, rw (ap top_level files) share)

  -- A slave that waits has a root, and its one message is its introduction.
  pub start_slave-eq-ok :
      {effects : List Effect}
      → start_slave archive os addr tcp_port ssh_port ≡ ok (waiting fs effects)
      → (root : TreeNode) × (host : Host) × AreOrdered (children root)
        × (fs.dir_tree ≡ rooted root)
        × (effects
            ≡ write_all (hello_message (archive.save_tree (rooted root)) (archive.save_host host))
              ∷ [])
  unfolding start_slave
  start_slave-eq-ok e =
      let (_, scanned, _) = bind-eq-ok (init_dir_tree os new_user_fs) _ e in
      let (links, shared, linked, scan) = init_dir_tree-eq-ok os new_user_fs scanned in
      let (gs, started, tree, _, _) =
        start_slave_lem archive os addr tcp_port ssh_port links shared linked scan in
      let same = waiting-injective (ok-injective (sym e ∙ started)) in
      (
        scanned_root os 0 links shared,
        own_host os 0 addr tcp_port ssh_port,
        IsShare-AreOrdered 0 shared (traverse_directory-IsShare os.memory 0 os.listing shared scan),
        ap (λ (x : UserFs). x.dir_tree) same.0 ∙ tree,
        same.1,
      )
