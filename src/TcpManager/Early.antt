-- ===== src/TcpManager/Early.antt =====
-- `initTCPNetwork` of src/user_fs.cc, when the thread that it starts handles messages before the main
-- thread goes on.
use group_share_filesystem.Base.{
  ℕ, ◌^◌, ◌<◌, ◌≡◌, refl, ap, ◌==◌, ==_iff, ==_ne, ◌≢◌, if◌then◌else◌, not, ◌∙◌, Bool, true, false,
  Bytes, List, [], ◌∷◌, ◌++◌, length, Outcome, ok, ◌>>=◌,
}
use group_share_filesystem.Archive.{Archive, IsLossless}
use group_share_filesystem.DirTree.Node.{TreeNode}
use group_share_filesystem.DirTree.NodeSet.Ordered.{AreOrdered}
use group_share_filesystem.DirTree.Merging.{rooted, top_level}
use group_share_filesystem.DirTree.{DirTree}
use group_share_filesystem.Hosts.{Host, host_at, push}
use group_share_filesystem.Packet.{Packet}
use group_share_filesystem.Protocol.{hello_message, update_message}
use group_share_filesystem.Protocol.RoundTrip.{parse_for_master-hello_message}
use group_share_filesystem.TcpManager.{read_from_slave}
use group_share_filesystem.TcpManager.Outages.{call_back}
use group_share_filesystem.TcpManager.Rooted.{HasRoot, read_update}
use group_share_filesystem.TcpMessager.Master.Accepting.{
  AcceptorErrors, start_accepting, any_error, start_accepting-any_error,
}
use group_share_filesystem.TcpMessager.Receiving.{received}
use group_share_filesystem.TcpMessager.Slave.{Action, deliver}
use group_share_filesystem.UserFs.{UserFs, write_all, disconnect_slave}
use group_share_filesystem.UserFs.Membership.{joined, join, admitted, new_connection-admitted}
use group_share_filesystem.UserFs.Start.{Started, failed, serving, waiting, serve, introduce}

-- A callback of a master: a packet of the connection with this id in its handle has come, from this
-- address, or a connection is gone.
pub data Callback : Type 0 where
  hears : Packet → Bytes → ℕ → Callback
  loses : ℕ → Callback

module _ (archive : Archive) where
  -- What the callbacks leave of a master.
  unfoldable pub hear_all : List Callback → UserFs → Outcome UserFs
  hear_all [] fs = ok fs
  hear_all (hears packet address id ∷ callbacks) fs = do
    reply ← read_from_slave archive packet address id fs
    hear_all callbacks reply.fs
  hear_all (loses id ∷ callbacks) fs = do
    reply ← disconnect_slave archive id fs
    hear_all callbacks reply.fs

  -- A thread that does not come to `do_accept` calls nothing back.
  unfoldable pub heard : AcceptorErrors → List Callback → List Callback
  heard errors callbacks = if (start_accepting errors).1 then callbacks else []

  -- What the thread calls back between its start and the next access of the main thread to the node:
  -- `callbacks` on a master, `actions` on a slave.
  module _ (errors : AcceptorErrors) (callbacks : List Callback) (actions : List Action) where
    unfoldable pub init_tcp_network_racing : Bool → UserFs → Outcome Started
    unfolding hear_all heard call_back serve introduce
    init_tcp_network_racing init_failed fs =
        if init_failed
        then ok failed
        else if fs.host_id == 1
        then (hear_all (heard errors callbacks) fs >>= serve)
        else (call_back archive actions fs >>= introduce archive)

serve_lem :
    (fs : UserFs) (own : Host) (others : List Host)
    → fs.hosts.hosts ≡ own ∷ others
    → serve fs ≡ ok (serving (record fs { hosts = push fs.hosts own }))
unfolding serve host_at
serve_lem fs own others e = rw e refl

module _ (archive : Archive) (errors : AcceptorErrors) (callbacks : List Callback)
    (actions : List Action) (fs : UserFs) where
  racing-master :
      fs.host_id ≡ 1
      → any_error errors ≡ false
      → init_tcp_network_racing archive errors callbacks actions false fs
        ≡ (hear_all archive callbacks fs >>= serve)
  unfolding init_tcp_network_racing heard
  racing-master is_master fine =
      let one : (fs.host_id == 1) ≡ true = (==_iff fs.host_id 1).1 is_master in
      let accepts : (start_accepting errors).1 ≡ true =
        start_accepting-any_error errors ∙ ap not fine in
      rw (one, accepts) refl

  racing-slave :
      fs.host_id ≢ 1
      → init_tcp_network_racing archive errors callbacks actions false fs
        ≡ (call_back archive actions fs >>= introduce archive)
  unfolding init_tcp_network_racing
  racing-slave is_slave = rw (==_ne fs.host_id 1 is_slave) refl

  racing-silent :
      fs.host_id ≡ 1
      → any_error errors ≡ true
      → init_tcp_network_racing archive errors callbacks actions false fs ≡ serve fs
  unfolding init_tcp_network_racing heard hear_all
  racing-silent is_master fails =
      let one : (fs.host_id == 1) ≡ true = (==_iff fs.host_id 1).1 is_master in
      let deaf : (start_accepting errors).1 ≡ false =
        start_accepting-any_error errors ∙ ap not fails in
      rw (one, deaf) refl

-- On a master that has its own host alone and hands out the id 2 next, with an acceptor that reports no
-- error: if the introduction of a newcomer is read before the main thread goes on, the newcomer's files
-- are merged under the id 2, but its host stands at the index 1 and the master's own at the index 2. The
-- introduction must load, and its parts be shorter than 2 ^ 48 bytes.
pub init_tcp_network_racing-newcomer :
    (archive : Archive) (errors : AcceptorErrors) (fs : UserFs) (root slave : TreeNode)
    (own host : Host) (d h address : Bytes)
    → any_error errors ≡ false
    → fs.host_id ≡ 1
    → fs.max_host_id ≡ 2
    → fs.dir_tree ≡ rooted root
    → fs.hosts.hosts ≡ own ∷ []
    → archive.load_tree d ≡ ok (rooted slave)
    → archive.load_host h ≡ ok host
    → length d < 2 ^ 48
    → length h < 2 ^ 48
    → (gs : UserFs) × (init_tcp_network_racing archive errors
          (hears (received (hello_message d h)) address 0 ∷ [])
          []
          false
          fs
        ≡ ok (serving gs))
      × (gs.dir_tree ≡ joined 2 slave root)
      × (host_at gs.hosts 1 ≡ ok (join 2 host address))
      × (host_at gs.hosts 2 ≡ ok own)
unfolding init_tcp_network_racing hear_all heard read_from_slave push host_at
init_tcp_network_racing-newcomer archive errors fs root slave own host d h address fine is_master
      first has_root alone loaded_tree loaded_host fits_d fits_h =
    let taken =
      new_connection-admitted archive d h address 0 fs slave root host loaded_tree loaded_host
        has_root in
    let left = (admitted archive address fs slave root host).fs in
    let two : left.hosts.hosts ≡ own ∷ join fs.max_host_id host address ∷ [] =
      ap (λ l. l ++ join fs.max_host_id host address ∷ []) alone in
    let served = serve_lem left own (join fs.max_host_id host address ∷ []) two in
    (
      record left { hosts = push left.hosts own },
      racing-master archive errors _ [] fs is_master fine
          ∙ rw (parse_for_master-hello_message d h (0 ∷ []) fits_d fits_h, taken) served,
      ap (λ id. joined id slave root) first,
      rw (alone, first) refl,
      rw alone refl,
    )

-- On a node that is not the master, if an update of a master is read before the main thread goes on, the
-- node introduces itself with the files and the first host of that master in place of its own. The
-- archives must lose nothing, both nodes must have a root and the files of the master be in order, and
-- the saved tree and hosts of the master must be shorter than 2 ^ 48 bytes.
pub init_tcp_network_racing-update :
    (archive : Archive) (lossless : IsLossless archive) (errors : AcceptorErrors)
    (slave master : UserFs) (own : HasRoot slave) (root : HasRoot master) (first : Host)
    (others : List Host)
    → AreOrdered (top_level master.dir_tree)
    → slave.host_id ≢ 1
    → master.hosts.hosts ≡ first ∷ others
    → length (archive.save_tree master.dir_tree) < 2 ^ 48
    → length (archive.save_hosts master.hosts) < 2 ^ 48
    → (gs : UserFs) × (tree : DirTree) × (init_tcp_network_racing archive errors []
          (deliver (
              received (
                update_message
                  (archive.save_tree master.dir_tree)
                  (archive.save_hosts master.hosts)))
            ∷ [])
          false
          slave
        ≡ ok (
            waiting gs
              (write_all (hello_message (archive.save_tree tree) (archive.save_host first)) ∷ [])))
      × (top_level tree ≡ top_level master.dir_tree)
unfolding call_back introduce host_at
init_tcp_network_racing-update archive lossless errors slave master own root first others order
      is_slave hosts fits_tree fits_hosts =
    let (after, reads, _, same) =
      read_update archive lossless slave master own root order fits_tree fits_hosts in
    (
      after,
      after.dir_tree,
      racing-slave archive errors [] _ slave is_slave ∙ rw (reads, same.same_hosts, hosts) refl,
      same.same_files,
    )

-- If a call of the acceptor reports an error on a master with a host, no callback is ever made, and the
-- main thread goes on as if none had failed: `initTCPNetwork` succeeds, and the master serves.
pub init_tcp_network_racing-any_error :
    (archive : Archive) (errors : AcceptorErrors) (callbacks : List Callback)
    (actions : List Action) (fs : UserFs) (own : Host) (others : List Host)
    → any_error errors ≡ true
    → fs.host_id ≡ 1
    → fs.hosts.hosts ≡ own ∷ others
    → ((start_accepting errors).1 ≡ false)
      × (init_tcp_network_racing archive errors callbacks actions false fs
          ≡ ok (serving (record fs { hosts = push fs.hosts own })))
init_tcp_network_racing-any_error archive errors callbacks actions fs own others fails is_master
      hosts =
    (
      start_accepting-any_error errors ∙ ap not fails,
      racing-silent archive errors callbacks actions fs is_master fails
          ∙ serve_lem fs own others hosts,
    )
