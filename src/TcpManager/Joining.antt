-- ===== src/TcpManager/Joining.antt =====
-- From the start of a slave in src/user_fs.cc through the protocol of src/tcp_manager.cc to the master.
use group_share_filesystem.Scan.Laws.{IsShare-AreOrdered, traverse_directory-IsShare}
use mathlib.Core.Option.{or_else}
use group_share_filesystem.Base.{
  ℕ, ◌+◌, ◌^◌, ◌<◌, ◌≡◌, ap, sym, ◌∙◌, if◌then◌else◌, Bytes, List, [], ◌∷◌, length, Option, some,
  ok,
}
use group_share_filesystem.Archive.{Archive, IsLossless}
use group_share_filesystem.DirTree.Node.{TreeNode, Children, nil, children, set_host_children}
use group_share_filesystem.DirTree.{slash}
use group_share_filesystem.DirTree.Conflicts.{is_found}
use group_share_filesystem.DirTree.Finding.{ArePlain, walk}
use group_share_filesystem.DirTree.Marking.{attributes_of, owned_by, walk-merged}
use group_share_filesystem.FuseInterface.Laws.{found_by}
use group_share_filesystem.DirTree.NodeSet.{IsSorted, lookup, insert_all}
use group_share_filesystem.DirTree.NodeSet.Lookup.{lookup-insert_all}
use group_share_filesystem.DirTree.Merging.{rooted, top_level, top_level-with_children}
use group_share_filesystem.Scan.{traverse_directory}
use group_share_filesystem.TcpMessager.Receiving.{received}
use group_share_filesystem.Protocol.{hello_message}
use group_share_filesystem.Protocol.RoundTrip.{parse_for_master-hello_message}
use group_share_filesystem.TcpManager.{read_from_slave}
use group_share_filesystem.UserFs.Membership.{IsMaster, admitted, joined, new_connection-admitted}
use group_share_filesystem.UserFs.Invariant.{new_connection-IsMaster}
use group_share_filesystem.UserFs.Start.{Surroundings, waiting, start_slave}
use group_share_filesystem.UserFs.Starting.{scanned_root, own_host, start_slave_lem}
use group_share_filesystem.UserFs.{UserFs, Reply, write_all, find}

-- The names at the top of the joined tree.
merged_children :
    (id : ℕ) (slave master o : TreeNode) (k : Bytes)
    → IsSorted (children master)
    → joined id slave master ≡ rooted o
    → lookup k (children o)
      ≡ or_else (lookup k (children master)) (lookup k (set_host_children id (children slave)))
merged_children id slave master o k sorted e =
    ap (lookup k) (
      sym (ap top_level e)
      ∙ top_level-with_children master
          (insert_all (set_host_children id (children slave)) (children master)))
    ∙ lookup-insert_all k (set_host_children id (children slave)) (children master) sorted

-- If the archives lose nothing: a slave whose scan ends, and whose TCP manager is initialized, writes one
-- message and waits. A master that is ready to serve and reads the message takes the slave in, whatever
-- names the two have in common, and is ready to serve again. At a path below the root with no element
-- `.` or `..` it has what it had, if it had the first name of the path, and otherwise, at every depth,
-- what the slave has there, with the new id as the owner and all other attributes as they were. The saved
-- scan and host must be shorter than 2 ^ 48 bytes, and there must be an id left.
pub read_from_slave-start_slave :
    (archive : Archive) (lossless : IsLossless archive) (os : Surroundings) (addr : Bytes)
    (tcp_port ssh_port links : ℕ) (shared : Children) (master : UserFs) (address : Bytes)
    (handle : ℕ)
    → os.root_links ≡ some links
    → traverse_directory os.memory 0 os.listing nil ≡ ok shared
    → IsMaster master
    → master.max_host_id + 1 < 2 ^ 64
    → length (archive.save_tree (rooted (scanned_root os 0 links shared))) < 2 ^ 48
    → length (archive.save_host (own_host os 0 addr tcp_port ssh_port)) < 2 ^ 48
    → (message : Bytes) × (slave : UserFs) × (r : Reply) × (start_slave archive os addr tcp_port
          ssh_port
        ≡ ok (waiting slave (write_all message ∷ [])))
      × (read_from_slave archive (received message) address handle master ≡ ok r)
      × IsMaster r.fs
      × (r.slave_id ≡ master.max_host_id)
      × ((k : Bytes) (path : List Bytes)
          → ArePlain (k ∷ path)
          → (own came there : Option TreeNode) × (find master (slash ∷ k ∷ path) ≡ ok own)
            × (find slave (slash ∷ k ∷ path) ≡ ok came)
            × (find r.fs (slash ∷ k ∷ path) ≡ ok there)
            × (attributes_of there ≡ (
                if is_found (lookup k (top_level master.dir_tree))
                then attributes_of own
                else owned_by r.slave_id (attributes_of came))))
unfolding read_from_slave
read_from_slave-start_slave archive lossless os addr tcp_port ssh_port links shared master address
      handle linked scan m room lt lh =
    let open_slave = scanned_root os 0 links shared in
    let host = own_host os 0 addr tcp_port ssh_port in
    let tree_seq = archive.save_tree (rooted open_slave) in
    let host_seq = archive.save_host host in
    let (slave, started, slave_root, _, _) =
      start_slave_lem archive os addr tcp_port ssh_port links shared linked scan in
    let taken =
      new_connection-admitted archive tree_seq host_seq address handle master open_slave m.root host
        (lossless.load-save_tree (rooted open_slave) (
          IsShare-AreOrdered 0 shared
            (traverse_directory-IsShare os.memory 0 os.listing shared scan)))
        (lossless.load-save_host host) m.has_root in
    let (served, given, _) =
      new_connection-IsMaster archive tree_seq host_seq address handle master m room taken in
    let r = admitted archive address master open_slave m.root host in
    (
      hello_message tree_seq host_seq,
      slave,
      r,
      started,
      rw (parse_for_master-hello_message tree_seq host_seq (0 ∷ []) lt lh) taken,
      served,
      given,
      λ k path plain. (
        walk m.root (k ∷ path),
        walk open_slave (k ∷ path),
        walk served.root (k ∷ path),
        found_by master m.root m.has_root (k ∷ path) plain,
        found_by slave open_slave slave_root (k ∷ path) plain,
        found_by r.fs served.root served.has_root (k ∷ path) plain,
        walk-merged r.slave_id m.root open_slave served.root k path (
              merged_children master.max_host_id open_slave m.root served.root k m.sorted
                served.has_root)
            ∙ ap
                (λ t.
                  if is_found (lookup k (top_level t))
                  then attributes_of (walk m.root (k ∷ path))
                  else owned_by r.slave_id (attributes_of (walk open_slave (k ∷ path))))
                (sym m.has_root),
      ),
    )
