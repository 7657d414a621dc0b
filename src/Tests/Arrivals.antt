-- ===== src/Tests/Arrivals.antt =====
-- The theorems on messages that come while `initTCPNetwork` runs, on their way from one messager to the other,
-- and on packets that no node has built, on concrete data.
use group_share_filesystem.Base.{
  none, map, ℕ, ◌++◌, ◌≡◌, refl, true, false, Bytes, List, [], ◌∷◌, ok, fault, over_read, arith,
}
use group_share_filesystem.DirTree.Merging.{rooted, top_level}
use group_share_filesystem.DirTree.{DirTree}
use group_share_filesystem.DirTree.Names.{name_ltb}
use group_share_filesystem.BytesOrder.{host_to_network_64}
use group_share_filesystem.Group.{read_all}
use group_share_filesystem.Group.Reception.{arrivals, bytes_read}
use group_share_filesystem.Hosts.{host_at, push}
use group_share_filesystem.Protocol.{hello_message, update_message}
use group_share_filesystem.TcpManager.Early.{
  hears, init_tcp_network_racing, init_tcp_network_racing-newcomer, init_tcp_network_racing-update,
  init_tcp_network_racing-any_error,
}
use group_share_filesystem.TcpManager.Outages.{call_back}
use group_share_filesystem.TcpManager.{read_from_slave, read_from_master}
use group_share_filesystem.TcpManager.Overruns.{read-overlong}
use group_share_filesystem.Protocol.Overruns.{claiming}
use group_share_filesystem.TcpMessager.Master.Accepting.{AcceptorErrors, start_accepting}
use group_share_filesystem.Group.Delivery.{begun-delivers}
use group_share_filesystem.TcpMessager.Master.Ordering.{begun}
use group_share_filesystem.TcpMessager.Master.{
  MasterMessager, new_master_messager, accepted_connection, accepts, writes_all,
  Event as MasterEvent, run as master_run,
}
use group_share_filesystem.TcpMessager.Queue.{enqueue}
use group_share_filesystem.TcpMessager.Receiving.{packet_of, received, wire_all}
use group_share_filesystem.TcpMessager.Slave.{
  new_slave_messager, header, Action, start_read, start_write, deliver,
}
use group_share_filesystem.TcpMessager.Slave.Events.{Line, run}
use group_share_filesystem.UserFs.{UserFs, write_all}
use group_share_filesystem.UserFs.Membership.{joined, join, admitted, new_connection-admitted}
use group_share_filesystem.UserFs.{
  Reply, write_to_peer, send_update, new_connection, disconnect_from_master,
}
use group_share_filesystem.TcpManager.Returning.{
  unless_taken, disconnect_from_master-new_connection,
}
use group_share_filesystem.DirTree.Node.{children, set_host_children}
use group_share_filesystem.DirTree.NodeSet.{lookup, insert, insert_all}
use group_share_filesystem.Tests.Samples.{master-IsMaster}
use group_share_filesystem.UserFs.Start.{serving, waiting}
use group_share_filesystem.Tests.Codec.{codec, codec-IsLossless}
use group_share_filesystem.Tests.Samples.{master, master_root, slave, slave_root, host_of, address}

abbrev waiting_line : Line
waiting_line = record { messager = record new_slave_messager { reading = header }; writing = none }

abbrev no_error : AcceptorErrors
no_error = record { at_open = false; at_option = false; at_bind = false; at_listen = false }

-- A master before its host is pushed a second time.
abbrev early_master : UserFs
early_master = record master { hosts = record { hosts = host_of 1 ∷ [] } }

abbrev hello : Bytes
hello = hello_message (codec.save_tree (rooted slave_root)) (codec.save_host (host_of 0))

init_tcp_network_racing-newcomer_example :
    (gs : UserFs) × (init_tcp_network_racing codec no_error
        (hears (received hello) address 0 ∷ [])
        []
        false
        early_master
      ≡ ok (serving gs))
    × (gs.dir_tree ≡ joined 2 slave_root master_root)
    × (host_at gs.hosts 1 ≡ ok (join 2 (host_of 0) address))
    × (host_at gs.hosts 2 ≡ ok (host_of 1))
unfolding codec
init_tcp_network_racing-newcomer_example =
    init_tcp_network_racing-newcomer codec no_error early_master master_root slave_root (host_of 1)
      (host_of 0) (codec.save_tree (rooted slave_root)) (codec.save_host (host_of 0)) address refl
      refl refl refl refl (codec-IsLossless.load-save_tree (rooted slave_root) (tt, tt, tt))
      (codec-IsLossless.load-save_host (host_of 0)) (omega arith) (omega arith)

abbrev update : Bytes
update = update_message (codec.save_tree master.dir_tree) (codec.save_hosts master.hosts)

init_tcp_network_racing-update_example :
    (gs : UserFs) × (tree : DirTree) × (init_tcp_network_racing codec no_error []
        (deliver (received update) ∷ [])
        false
        slave
      ≡ ok (
          waiting gs
            (write_all (hello_message (codec.save_tree tree) (codec.save_host (host_of 1))) ∷ [])))
    × (top_level tree ≡ top_level master.dir_tree)
unfolding codec name_ltb
init_tcp_network_racing-update_example =
    init_tcp_network_racing-update codec codec-IsLossless no_error slave master (slave_root, refl)
      (master_root, refl) (host_of 1) (host_of 1 ∷ []) ((refl, tt), (tt, tt, tt), (tt, tt, tt))
      (λ e. omega (arith, e)) refl (omega arith) (omega arith)

abbrev taken_port : AcceptorErrors
taken_port = record no_error { at_bind = true }

init_tcp_network_racing-any_error_example :
    ((start_accepting taken_port).1 ≡ false)
    × (init_tcp_network_racing codec taken_port [] [] false early_master ≡ ok (serving master))
unfolding push
init_tcp_network_racing-any_error_example =
    init_tcp_network_racing-any_error codec taken_port [] [] early_master (host_of 1) [] refl refl
      refl

-- One connection comes, and two packets are posted to it.
abbrev master_events : List MasterEvent
master_events = accepts false ∷ writes_all (packet_of update) ∷ writes_all (packet_of update) ∷ []

abbrev one_connection : MasterMessager
one_connection = record {
  connections =
      (0, record accepted_connection { write_packets = packet_of update ∷ packet_of update ∷ [] })
      ∷ [];
}

abbrev master_calls : List (ℕ × Action)
master_calls = (0, start_read 8) ∷ (0, start_write (packet_of update)) ∷ []

master_events-run : master_run master_events new_master_messager ≡ ok (one_connection, master_calls)
unfolding master_run enqueue
master_events-run = refl

begun-delivers_example :
    (sent : List Bytes) × (kept : List Bytes) × (l' : Line) × (calls : List Action) × (update
        ∷ update ∷ []
      ≡ sent ++ kept)
    × (packet_of update ∷ [] ≡ map packet_of kept)
    × (wire_all (begun 0 master_calls) ≡ ok (bytes_read (arrivals sent)))
    × (run (arrivals sent) waiting_line ≡ ok (l', calls))
    × (call_back codec calls slave ≡ read_all codec sent slave)
unfolding update_message host_to_network_64 codec
begun-delivers_example =
    begun-delivers codec 0 master_events (update ∷ update ∷ []) (packet_of update ∷ []) waiting_line
      slave master_events-run refl refl (omega arith, (omega arith, tt)) refl

read-overlong_example :
    (read_from_slave codec (received (claiming 0 9 [])) address 0 master ≡ fault over_read)
    × (read_from_master codec (received (claiming 2 9 [])) master ≡ fault over_read)
    × (read_from_slave codec (received []) address 0 master ≡ fault over_read)
    × (read_from_master codec (received []) master ≡ fault over_read)
read-overlong_example =
    read-overlong codec 9 [] [] address 0 master (omega arith) (omega arith) (omega arith)

-- What the master of the samples makes of the slave.
abbrev taken : Reply
taken = admitted codec address master slave_root master_root (host_of 0)

slave_taken :
    new_connection codec
      (codec.save_tree (rooted slave_root))
      (codec.save_host (host_of 0))
      address
      0
      master
    ≡ ok taken
unfolding name_ltb
slave_taken =
    new_connection-admitted codec (codec.save_tree (rooted slave_root))
      (codec.save_host (host_of 0)) address 0 master slave_root master_root (host_of 0)
      (codec-IsLossless.load-save_tree (rooted slave_root) (tt, tt, tt))
      (codec-IsLossless.load-save_host (host_of 0)) refl

abbrev its_file : Bytes
its_file = b'd' ∷ []

disconnect_from_master-new_connection_example :
    (message : Bytes) × (member after : UserFs) × (taken.effects
      ≡ write_to_peer message ∷ send_update codec taken.fs)
    × (read_from_master codec (received message) slave ≡ ok member)
    × (disconnect_from_master codec member ≡ ok after)
    × (lookup its_file (top_level after.dir_tree)
        ≡ unless_taken
            (lookup its_file (top_level master.dir_tree))
            (lookup its_file (set_host_children 2 (children slave_root))))
unfolding codec insert_all insert set_host_children name_ltb push
disconnect_from_master-new_connection_example =
    disconnect_from_master-new_connection codec codec-IsLossless slave master slave_root (host_of 0)
      (codec.save_host (host_of 0)) address 0 its_file refl (tt, tt, tt) master-IsMaster
      ((refl, tt), (tt, tt, tt), (tt, tt, tt)) (codec-IsLossless.load-save_host (host_of 0))
      slave_taken (omega arith) (omega arith) (omega arith)
