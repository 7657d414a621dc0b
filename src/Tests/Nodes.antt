-- ===== src/Tests/Nodes.antt =====
-- The theorems on whole nodes, on concrete data.
use group_share_filesystem.DirTree.NodeSet.Ordered.{AreOrdered}
use group_share_filesystem.Hosts.{push}
use group_share_filesystem.DirTree.NodeSet.{insert}
use group_share_filesystem.UserFs.{accept_slave}
use group_share_filesystem.DirTree.{common_names, has_conflict, merge, set_tree_host}
use group_share_filesystem.DirTree.{find as tree_find}
use group_share_filesystem.DirTree.Names.{name_eq, name_ltb}
use group_share_filesystem.Base.{
  ◌+◌, ◌++◌, ◌≡◌, refl, Bytes, List, [], ◌∷◌, Option, none, some, ok, arith,
}
use group_share_filesystem.DirTree.Node.{children, directory, TreeNode, node, nil, cons}
use group_share_filesystem.DirTree.Merging.{rooted, top_level}
use group_share_filesystem.DirTree.NodeSet.{lookup}
use group_share_filesystem.DirTree.Finding.{ArePlain}
use group_share_filesystem.DirTree.Conflicts.{lists, is_found}
use group_share_filesystem.DirTree.{slash}
use group_share_filesystem.Hosts.{Host}
use group_share_filesystem.UserFs.{
  UserFs, Reply, write_to_peer, find, new_connection, disconnect_slave, send_update,
}
use group_share_filesystem.UserFs.Membership.{IsMaster}
use group_share_filesystem.UserFs.Invariant.{disconnect_slave-new_connection}
use group_share_filesystem.UserFs.Reading.{World, read as user_read}
use group_share_filesystem.Protocol.{recognition_message}
use group_share_filesystem.Ssh.Session.{opened}
use group_share_filesystem.Ssh.Manager.{Connections}
use group_share_filesystem.UserFs.Owning.{AreOwned, IsHost, new_connection-AreOwned}
use group_share_filesystem.DirTree.Everywhere.{Everywhere}
use group_share_filesystem.DirTree.Merging.{top_level}
use group_share_filesystem.DirTree.Node.{attributes}
use group_share_filesystem.TcpMessager.Receiving.{received}
use group_share_filesystem.TcpManager.{read_from_master}
use group_share_filesystem.TcpManager.Replication.{SeesSame, read_from_master-new_connection}
use group_share_filesystem.FuseInterface.{done, readdir}
use group_share_filesystem.FuseInterface.Laws.{readdir-find}
use group_share_filesystem.Tests.Codec.{codec, codec-IsLossless}
use group_share_filesystem.Tests.Samples.{
  file, root_with, master_root, slave_root, host_of, master, slave, master-IsMaster, attributes_of,
}

abbrev tree_seq : Bytes
tree_seq = codec.save_tree (rooted slave_root)

abbrev host_seq : Bytes
host_seq = codec.save_host (host_of 0)

abbrev address : Bytes
address = b'i' ∷ []

-- The master after the slave has joined.
abbrev root_after : TreeNode
root_after = root_with 1 (
    cons (node (attributes_of directory 1) (b'a' ∷ []) (cons (file 1 (b'c' ∷ [])) nil))
      (cons (file 1 (b'b' ∷ [])) (cons (file 2 (b'd' ∷ [])) nil)))

abbrev joined_host : Host
joined_host = record (host_of 2) { address = address }

abbrev master_after : UserFs
master_after = record master {
  max_host_id = 3;
  dir_tree = rooted root_after;
  hosts = record { hosts = host_of 1 ∷ host_of 1 ∷ joined_host ∷ [] };
}

abbrev reply : Reply
reply = record {
  fs = master_after;
  slave_id = 2;
  effects =
      write_to_peer (
        recognition_message 2 (codec.save_tree (rooted root_after))
          (codec.save_hosts master_after.hosts))
      ∷ send_update codec master_after;
}

joins : new_connection codec tree_seq host_seq address 0 master ≡ ok reply
unfolding new_connection codec has_conflict common_names accept_slave set_tree_host merge insert
    push send_update name_ltb
joins = refl

-- The files of the master, one of them in a directory.
master-AreOwned : AreOwned master
master-AreOwned = (
  (omega arith, omega arith),
  ((omega arith, omega arith), tt, tt),
  ((omega arith, omega arith), tt, tt),
)

new_connection-AreOwned_example :
    IsMaster master_after
    × AreOwned master_after
    × (reply.slave_id ≡ master.max_host_id)
    × (master_after.max_host_id ≡ master.max_host_id + 1)
    × IsHost master_after.hosts reply.slave_id
    × Everywhere
        (λ n. IsHost master_after.hosts (attributes n).host_id)
        (top_level master_after.dir_tree)
new_connection-AreOwned_example =
    new_connection-AreOwned codec tree_seq host_seq address 0 master master-IsMaster master-AreOwned
      (omega arith) joins

disconnect_slave-new_connection_example :
    (q : Reply) × (disconnect_slave codec 2 master_after ≡ ok q)
    × (q.fs.dir_tree ≡ rooted master_root)
disconnect_slave-new_connection_example =
    disconnect_slave-new_connection codec tree_seq host_seq address 0 master master-IsMaster joins

master-AreOrdered : AreOrdered (children master_root)
unfolding name_ltb
master-AreOrdered = ((refl, tt), (tt, tt, tt), (tt, tt, tt))

master_after-AreOrdered : AreOrdered (children root_after)
unfolding name_ltb
master_after-AreOrdered = ((refl, (refl, tt)), (tt, tt, tt), ((refl, tt), tt, (tt, tt, tt)))

read_from_master-new_connection_example :
    (message : Bytes) × (after : UserFs) × (reply.effects
      ≡ write_to_peer message ∷ send_update codec master_after)
    × (read_from_master codec (received message) slave ≡ ok after)
    × SeesSame after master_after
    × (after.host_id ≡ 2)
    × (after.slave_wait_sem ≡ 1)
unfolding codec
read_from_master-new_connection_example =
    read_from_master-new_connection codec codec-IsLossless slave master slave_root tree_seq host_seq
      address 0 refl master-IsMaster joins (omega arith) (omega arith) (omega arith)
      master_after-AreOrdered

abbrev key : Bytes
key = b'b' ∷ []

owner : lookup key (top_level master.dir_tree) ≡ some (file 1 key)
unfolding lookup name_eq name_ltb
owner = refl

-- The directory `/a` of the master.
abbrev dir : TreeNode
dir = node (attributes_of directory 1) (b'a' ∷ []) (cons (file 1 (b'c' ∷ [])) nil)

abbrev dir_path : List Bytes
dir_path = (b'a' ∷ []) ∷ []

found_dir : find master (slash ∷ dir_path) ≡ ok (some dir)
unfolding find tree_find name_eq name_ltb lookup
found_dir = refl

readdir-find_example :
    (names : List Bytes) × (readdir master (slash ∷ dir_path) ≡ ok (done names))
    × ((k : Bytes)
        → ArePlain (dir_path ++ k ∷ [])
        → (child : Option TreeNode) × (find master (slash ∷ (dir_path ++ k ∷ [])) ≡ ok child)
          × (lists k names ≡ is_found child))
unfolding name_eq name_ltb
readdir-find_example =
    readdir-find master master_root dir dir_path refl (refl, refl, tt) found_dir refl

abbrev world : World
world = record {
  join_path = λ dir file. dir ++ file;
  local_read = λ path offset size. some size;
  first = none;
  attempt = opened;
  second = none;
}

abbrev file_path : List Bytes
file_path = slash ∷ key ∷ []

abbrev connections : Connections
connections = []

found_file : find master file_path ≡ ok (some (file 1 key))
unfolding find tree_find name_eq name_ltb lookup
found_file = refl
