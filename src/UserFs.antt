-- ===== src/UserFs.antt =====
-- Class UserFS of src/user_fs.h and src/user_fs.cc: the state of a node, and the handlers that its
-- network thread calls. That thread runs one handler after the other, and no other thread writes the
-- tree or the hosts once it serves, so a handler is one step here. What it asks the TCP manager to do
-- is a list of effects, in the order of the calls.
pub mod Start
pub mod Starting
pub mod Leaving
pub mod Membership
pub mod Invariant
pub mod Reading
pub mod LocalRead
pub mod Owning
use group_share_filesystem.Base.{
  ℕ, suc, ◌+◌, ◌%◌, ◌^◌, ◌==◌, if◌then◌else◌, Bool, true, false, Bytes, List, [], ◌∷◌, ◌++◌,
  Outcome, ok, fault, or_fault, null_pointer, filesystem_error, ◌>>=◌, Option, none, some,
}
use group_share_filesystem.Archive.{Archive}
use group_share_filesystem.DirTree.Node.{TreeNode, node, Attributes, directory, nil}
use group_share_filesystem.DirTree.{
  DirTree, empty_tree, initialize, root_node, remove_of, remove_not_of, has_conflict, merge,
  set_tree_host, replace_children, find as tree_find,
}
use group_share_filesystem.Hosts.{Host, Hosts, no_hosts, push, host_at}
use group_share_filesystem.Protocol.{hello_message, recognition_message, update_message}

pub record UserFs : Type 0 where
  pub main_thread_is_waiting : Bool
  pub slave_wait_sem : ℕ
  pub host_id : ℕ
  pub working_dir : Bytes
  pub max_host_id : ℕ
  pub dir_tree : DirTree
  pub hosts : Hosts

-- A call of the TCP manager: `write`, `writeTo` and `close` with the handle at hand.
pub data Effect : Type 0 where
  write_all : Bytes → Effect
  write_to_peer : Bytes → Effect
  close_peer : Effect

-- `UserFS()`
abbrev pub new_user_fs : UserFs
new_user_fs = record {
  main_thread_is_waiting = true;
  slave_wait_sem = 0;
  host_id = 0;
  working_dir = [];
  max_host_id = 2;
  dir_tree = empty_tree;
  hosts = no_hosts;
}

unfoldable pub find : UserFs → List Bytes → Outcome (Option TreeNode)
find fs path = tree_find fs.dir_tree path

-- `sendUpdate(dir_tree_seq, hosts_seq)`
unfoldable pub send_update_of : Bytes → Bytes → List Effect
send_update_of dir_tree_seq hosts_seq = write_all (update_message dir_tree_seq hosts_seq) ∷ []

-- What a handler leaves: the node, the id in the handle of the connection, and the calls made.
pub record Reply : Type 0 where
  pub fs : UserFs
  pub slave_id : ℕ
  pub effects : List Effect

module _ (archive : Archive) where
  open archive use {save_tree, load_tree, save_host, load_host, save_hosts, load_hosts}

  -- `sendUpdate()`
  unfoldable pub send_update : UserFs → List Effect
  unfolding send_update_of
  send_update fs = send_update_of (save_tree fs.dir_tree) (save_hosts fs.hosts)

  unfoldable pub slave_recognized : ℕ → Bytes → Bytes → UserFs → Outcome UserFs
  slave_recognized slave_id dir_tree_seq hosts_seq fs = do
    merged_tree ← load_tree dir_tree_seq
    merged_hosts ← load_hosts hosts_seq
    dir_tree ← replace_children fs.dir_tree merged_tree
    ok (record fs {
      host_id = slave_id;
      dir_tree = dir_tree;
      hosts = merged_hosts;
      main_thread_is_waiting = false;
      slave_wait_sem = suc fs.slave_wait_sem;
    })

  unfoldable pub update_info : Bytes → Bytes → UserFs → Outcome UserFs
  update_info dir_tree_seq hosts_seq fs = do
    new_tree ← load_tree dir_tree_seq
    merged_hosts ← load_hosts hosts_seq
    dir_tree ← replace_children fs.dir_tree new_tree
    ok (record fs { dir_tree = dir_tree; hosts = merged_hosts })

  -- The slave's connection failed or broke: `disconnect()`.
  unfoldable pub disconnect_from_master : UserFs → Outcome UserFs
  disconnect_from_master fs = do
    dir_tree ← remove_not_of fs.host_id fs.dir_tree
    let alone = record fs { dir_tree = dir_tree }
    ok (
        if fs.main_thread_is_waiting
        then record alone { main_thread_is_waiting = false; slave_wait_sem = suc fs.slave_wait_sem }
        else alone)

  -- A slave is gone: `disconnect(handle)`, with the id in the handle.
  forget_slave : ℕ → UserFs → Outcome Reply
  forget_slave slave_id fs = do
    dir_tree ← remove_of slave_id fs.dir_tree
    let left = record fs { dir_tree = dir_tree }
    ok (record { fs = left; slave_id = 0; effects = send_update left })

  unfoldable pub disconnect_slave : ℕ → UserFs → Outcome Reply
  unfolding forget_slave
  disconnect_slave slave_id fs =
      if slave_id == 0
      then ok (record { fs = fs; slave_id = slave_id; effects = [] })
      else forget_slave slave_id fs

  -- The part of `newConnection` for a tree with no conflict. `remote_address` is what the socket of
  -- the connection says of its peer.
  unfoldable pub accept_slave : DirTree → Host → Bytes → UserFs → Outcome Reply
  unfolding send_update_of
  accept_slave slave_dir_tree slave_host remote_address fs = do
    let slave_id = fs.max_host_id
    marked ← set_tree_host slave_id slave_dir_tree
    dir_tree ← merge fs.dir_tree marked
    let hosts = push fs.hosts (record slave_host { address = remote_address; id = slave_id })
    let dir_tree_seq = save_tree dir_tree
    let hosts_seq = save_hosts hosts
    ok (record {
      fs = record fs { max_host_id = (slave_id + 1) % 2 ^ 64; dir_tree = dir_tree; hosts = hosts };
      slave_id = slave_id;
      effects =
          write_to_peer (recognition_message slave_id dir_tree_seq hosts_seq)
          ∷ send_update_of dir_tree_seq hosts_seq;
    })

  admit : List Bytes → DirTree → Host → Bytes → ℕ → UserFs → Outcome Reply
  admit [] slave_dir_tree slave_host remote_address handle_id fs =
      accept_slave slave_dir_tree slave_host remote_address fs
  admit (name ∷ names) slave_dir_tree slave_host remote_address handle_id fs =
      ok (record { fs = fs; slave_id = handle_id; effects = close_peer ∷ [] })

  unfoldable pub new_connection : Bytes → Bytes → Bytes → ℕ → UserFs → Outcome Reply
  unfolding admit
  new_connection dir_tree_seq host_seq remote_address handle_id fs = do
    slave_dir_tree ← load_tree dir_tree_seq
    slave_host ← load_host host_seq
    conflicts ← has_conflict fs.dir_tree slave_dir_tree
    admit conflicts slave_dir_tree slave_host remote_address handle_id fs
