-- ===== src/Tests/Starts.antt =====
-- The theorems on the start of a node, the options and the master messager, on concrete data.
use group_share_filesystem.TcpMessager.Master.Ordering.{begun, posted}
use group_share_filesystem.TcpMessager.Master.InOrder.{begun-run}
use group_share_filesystem.TcpMessager.Queue.{enqueue}
use group_share_filesystem.UserFs.Start.{add_trailing_slash}
use group_share_filesystem.DirTree.NodeSet.{insert}
use group_share_filesystem.Base.{
  ◌++◌, ◌+◌, ◌≡◌, ◌↔◌, refl, true, false, ltb, if◌then◌else◌, Bytes, List, [], ◌∷◌, length, none,
  some, ok, fault, over_read, arith,
}
use group_share_filesystem.DirTree.Node.{nil}
use group_share_filesystem.DirTree.NodeSet.{lookup}
use group_share_filesystem.DirTree.Merging.{rooted, top_level}
use group_share_filesystem.Scan.{traverse_directory}
use group_share_filesystem.TcpMessager.Receiving.{received, packet_of}
use group_share_filesystem.TcpMessager.Slave.{start_read, start_write, disconnected}
use group_share_filesystem.TcpMessager.Master.{
  Connection, MasterMessager, new_master_messager, accepted_connection, close_connection,
  write_ends, Event, accepts, writes_all, closes, run,
}
use group_share_filesystem.TcpMessager.Master.Closing.{
  disconnects, opens, disconnects-run, write_ends-close_connection,
}
use group_share_filesystem.TcpManager.{read_from_slave}
use group_share_filesystem.TcpManager.Joining.{read_from_slave-start_slave}
use group_share_filesystem.DirTree.{slash}
use group_share_filesystem.DirTree.Finding.{ArePlain}
use group_share_filesystem.FuseInterface.{done, readdir, names_of}
use group_share_filesystem.UserFs.{UserFs, Reply, write_all, find}
use group_share_filesystem.UserFs.Membership.{IsMaster}
use group_share_filesystem.UserFs.Start.{waiting, start_slave}
use group_share_filesystem.UserFs.Starting.{scanned_root, own_host}
use group_share_filesystem.OptionParser.{Variables, Checks, Options, starts, parse}
use group_share_filesystem.DirTree.Names.{name_eq, name_ltb}
use group_share_filesystem.OptionParser.Declared.{
  a_string, a_uint16, a_path, VariablesMap, IsStored, all_options, declared_type, listen_name,
  connect_name, tcp_port_name, ssh_port_name, mount_point_name, working_directory_name,
}
use group_share_filesystem.OptionParser.Stored.{parse_stored}
use group_share_filesystem.OptionParser.Casts.{variables_of, parse_stored-variables_of}
use group_share_filesystem.OptionParser.Parsing.{Asks, parse_iff}
use group_share_filesystem.Program.{main, mounts, waits, go_on}
use group_share_filesystem.Program.Running.{Mounts, main-IsMaster, main-waiting}
use group_share_filesystem.DirTree.Conflicts.{is_found}
use group_share_filesystem.DirTree.Marking.{attributes_of, owned_by}
use group_share_filesystem.Base.{Holds, ℕ, Option}
use group_share_filesystem.UserFs.{slave_recognized, disconnect_from_master}
use group_share_filesystem.DirTree.Node.{TreeNode}
use group_share_filesystem.Protocol.{hello_message}
use group_share_filesystem.Tests.Samples.{os, address, shared}
use group_share_filesystem.Tests.Codec.{codec, codec-IsLossless}
use group_share_filesystem.Tests.Samples.{master, master-IsMaster}

scan_of_master : traverse_directory os.memory 1 os.listing nil ≡ ok (shared 1)
unfolding traverse_directory insert
scan_of_master = refl

scan_of_slave : traverse_directory os.memory 0 os.listing nil ≡ ok (shared 0)
unfolding traverse_directory insert
scan_of_slave = refl

read_from_slave-start_slave_example :
    (message : Bytes) × (slave : UserFs) × (r : Reply) × (start_slave codec os address 80 22
      ≡ ok (waiting slave (write_all message ∷ [])))
    × (read_from_slave codec (received message) address 0 master ≡ ok r)
    × IsMaster r.fs
    × (r.slave_id ≡ 2)
    × ((k : Bytes) (path : List Bytes)
        → ArePlain (k ∷ path)
        → (own came there : Option TreeNode) × (find master (slash ∷ k ∷ path) ≡ ok own)
          × (find slave (slash ∷ k ∷ path) ≡ ok came)
          × (find r.fs (slash ∷ k ∷ path) ≡ ok there)
          × (attributes_of there ≡ (
              if is_found (lookup k (top_level master.dir_tree))
              then attributes_of own
              else owned_by r.slave_id (attributes_of came))))
unfolding codec add_trailing_slash
read_from_slave-start_slave_example =
    read_from_slave-start_slave codec codec-IsLossless os address 80 22 2 (shared 0) master address
      0 refl scan_of_slave master-IsMaster (omega arith) (omega arith) (omega arith)

-- Two connections come, the first closes, a packet goes to all, and the first closes again.
abbrev events : List Event
events = accepts false ∷ accepts false ∷ closes 0 ∷ writes_all (packet_of (1 ∷ [])) ∷ closes 0 ∷ []

abbrev messager : MasterMessager
messager = record {
  connections =
      (1, record accepted_connection { write_packets = packet_of (1 ∷ []) ∷ [] })
      ∷ (0, record accepted_connection { is_open = false })
      ∷ [];
}

ran :
    run events new_master_messager
    ≡ ok (
      messager,
      (0, start_read 8)
          ∷ (1, start_read 8)
          ∷ (0, disconnected)
          ∷ (1, start_write (packet_of (1 ∷ [])))
          ∷ [],
    )
unfolding run enqueue
ran = refl

disconnects-run_example :
    disconnects 0 (
        (0, start_read 8)
        ∷ (1, start_read 8)
        ∷ (0, disconnected)
        ∷ (1, start_write (packet_of (1 ∷ [])))
        ∷ [])
      + opens 0 messager.connections
    ≡ (if ltb 0 (length messager.connections) then 1 else 0)
disconnects-run_example = disconnects-run 0 events ran

begun-run_example :
    begun 1 (
        (0, start_read 8)
        ∷ (1, start_read 8)
        ∷ (0, disconnected)
        ∷ (1, start_write (packet_of (1 ∷ [])))
        ∷ [])
      ++ []
    ≡ posted 1 0 events
begun-run_example = begun-run 1 events [] ran refl

abbrev writing : Connection
writing = record accepted_connection { write_packets = packet_of (1 ∷ []) ∷ [] }

write_ends-close_connection_example :
    write_ends false 9 (close_connection writing).0 ≡ fault over_read
write_ends-close_connection_example = write_ends-close_connection writing 9 refl

-- `--listen h --tcp-port 80 --mount-point m --working-directory w`
abbrev command_line : Variables
command_line = record {
  listen = some address;
  connect = none;
  tcp_port = some 80;
  ssh_port = none;
  mount_point = some (b'm' ∷ []);
  working_directory = some (b'w' ∷ []);
  help = false;
  version = false;
}

abbrev checks : Checks
checks = record { is_address = λ text. true; exists = λ path. true; is_directory = λ path. true }

abbrev options : Options
options = record {
  is_master = true;
  is_standby = false;
  address = address;
  tcp_port = 80;
  ssh_port = 22;
  mount_point = b'm' ∷ [];
  working_dir = b'w' ∷ [];
}

parse_iff_example : (parse checks command_line ≡ starts options) ↔ Asks checks command_line options
parse_iff_example = parse_iff checks command_line options

-- The same command line as Boost stores it.
abbrev stored_line : VariablesMap
stored_line name =
    if name_eq listen_name name
    then some (a_string address)
    else if name_eq connect_name name
    then none
    else if name_eq tcp_port_name name
    then some (a_uint16 80)
    else if name_eq ssh_port_name name
    then none
    else if name_eq mount_point_name name
    then some (a_path (b'm' ∷ []))
    else if name_eq working_directory_name name
    then some (a_path (b'w' ∷ []))
    else none

stored_line-IsStored : IsStored stored_line
unfolding IsStored declared_type all_options
stored_line-IsStored name v e = ground (arith, e)

stored_line-command_line : variables_of stored_line ≡ command_line
unfolding variables_of name_eq name_ltb
stored_line-command_line = refl

parse_stored-variables_of_example :
    parse_stored checks stored_line ≡ some (parse checks (variables_of stored_line))
parse_stored-variables_of_example =
    parse_stored-variables_of checks stored_line stored_line-IsStored

options-Asks : Asks checks command_line options
options-Asks = record {
  no_help = refl;
  no_version = refl;
  listens = refl;
  connects = refl;
  one_role = refl;
  address_ok = refl;
  tcp_port_given = refl;
  ssh_port_or_22 = refl;
  mount_point_given = refl;
  mount_point_ok = (refl, refl);
  working_dir_given = refl;
  working_dir_ok = (refl, refl);
}

main-IsMaster_example :
    (fs : UserFs) × (main codec (λ dir. os) false false (parse checks command_line)
      ≡ ok (mounts (b'm' ∷ []) fs))
    × IsMaster fs
    × (top_level fs.dir_tree ≡ shared 1)
    × (readdir fs (slash ∷ []) ≡ ok (done (names_of (shared 1))))
    × ((k : Bytes) → ArePlain (k ∷ []) → find fs (slash ∷ k ∷ []) ≡ ok (lookup k (shared 1)))
main-IsMaster_example =
    main-IsMaster codec (λ dir. os) checks command_line options options-Asks 2 (shared 1) refl refl
      scan_of_master

-- The same with `--connect`.
abbrev standby_line : Variables
standby_line = record command_line { listen = none; connect = some address }

abbrev standby_options : Options
standby_options = record options { is_master = false; is_standby = true }

standby_options-Asks : Asks checks standby_line standby_options
standby_options-Asks = record {
  no_help = refl;
  no_version = refl;
  listens = refl;
  connects = refl;
  one_role = refl;
  address_ok = refl;
  tcp_port_given = refl;
  ssh_port_or_22 = refl;
  mount_point_given = refl;
  mount_point_ok = (refl, refl);
  working_dir_given = refl;
  working_dir_ok = (refl, refl);
}

main-waiting_example :
    (fs : UserFs) × (main codec (λ dir. os) false false (parse checks standby_line)
      ≡ ok (
          waits (b'm' ∷ []) fs (
            write_all (
              hello_message
                (codec.save_tree (rooted (scanned_root os 0 2 (shared 0))))
                (codec.save_host (own_host os 0 address 80 22)))
            ∷ [])))
    × (top_level fs.dir_tree ≡ shared 0)
    × (go_on (b'm' ∷ []) fs ≡ none)
    × ((slave_id : ℕ) (dir_tree_seq hosts_seq : Bytes)
        → Holds (Mounts (b'm' ∷ [])) (slave_recognized codec slave_id dir_tree_seq hosts_seq fs))
    × Holds (Mounts (b'm' ∷ [])) (disconnect_from_master codec fs)
main-waiting_example =
    main-waiting codec (λ dir. os) checks standby_line standby_options standby_options-Asks 2
      (shared 0) refl refl scan_of_slave
