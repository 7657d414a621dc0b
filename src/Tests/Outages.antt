-- ===== src/Tests/Outages.antt =====
-- The theorems on a slave whose connection fails, and on the roles of the TCP manager, on concrete data.
use group_share_filesystem.Base.{
  none, ◌≡◌, ◌↔◌, refl, true, false, List, [], ◌∷◌, some, ok, fault, null_pointer,
}
use group_share_filesystem.DirTree.{remove_not_of}
use group_share_filesystem.DirTree.NodeSet.{erase_if}
use group_share_filesystem.Packet.{Packet, empty_packet, encode_data}
use group_share_filesystem.TcpManager.{
  TcpManager, master as master_role, start, thread_body, to_all_slaves, to_peer, close_connection,
  write, write_to, close, stops, joins, deletes, destroy, Resolved, initialize, new_tcp_manager,
}
use group_share_filesystem.TcpManager.Outages.{call_back}
use group_share_filesystem.TcpManager.Roles.{
  initialized, initialize_all, initialize-destroy, write-initialize_iff,
}
use group_share_filesystem.TcpManager.Waking.{wait_for_master-run}
use group_share_filesystem.TcpMessager.Queue.{enqueue}
use group_share_filesystem.TcpMessager.Receiving.{packet_of}
use group_share_filesystem.TcpMessager.Slave.{
  new_slave_messager, idle, header, Action, start_read, start_write, disconnected, connected,
  written, header_read, write as messager_write,
}
use group_share_filesystem.TcpMessager.Slave.Events.{
  Line, Event, read_ends, posts, write_ends, started_line, run,
}
use group_share_filesystem.TcpMessager.Slave.Outages.{run-stops}
use group_share_filesystem.UserFs.{UserFs, disconnect_from_master}
use group_share_filesystem.UserFs.Start.{wait_for_master}
use group_share_filesystem.Tests.Codec.{codec}
use group_share_filesystem.Tests.Samples.{slave, address}

abbrev packet : Packet
packet = packet_of (1 ∷ [])

-- The connection is made, a packet is posted, and then the read fails, and the write.
abbrev outage : List Event
outage = read_ends false [] ∷ posts packet ∷ read_ends true [] ∷ write_ends true 0 ∷ []

abbrev lost_line : Line
lost_line = record {
  messager = record new_slave_messager { is_open = false; write_packets = packet ∷ [] };
  writing = none;
}

abbrev calls : List Action
calls = start_read 8 ∷ start_write packet ∷ disconnected ∷ disconnected ∷ []

outage-run : run outage started_line ≡ ok (lost_line, calls)
unfolding run connected messager_write enqueue header_read written
outage-run = refl

run-stops_example :
    (l' : Line) × (run (posts packet ∷ write_ends false 9 ∷ []) lost_line ≡ ok (l', []))
    × (l'.messager.reading ≡ idle)
    × (l'.writing ≡ none)
run-stops_example = run-stops outage (posts packet ∷ write_ends false 9 ∷ []) outage-run refl

abbrev waiting_line : Line
waiting_line = record { messager = record new_slave_messager { reading = header }; writing = none }

abbrev alone : UserFs
alone = record slave { main_thread_is_waiting = false; slave_wait_sem = 1 }

calls-alone : call_back codec calls slave ≡ ok alone
unfolding call_back disconnect_from_master remove_not_of erase_if
calls-alone = refl

wait_for_master-run_example :
    (next : UserFs) × (wait_for_master alone ≡ some next) × (false ≡ false)
wait_for_master-run_example =
    wait_for_master-run codec outage slave refl outage-run refl calls-alone

abbrev answer : Resolved
answer = record { endpoints = address ∷ []; failed = false }

initialize-destroy_example :
    (started : TcpManager) × (start (initialized true answer) ≡ ok started)
    × (started.thread ≡ some master_role)
    × (thread_body master_role started ≡ ok tt)
    × (write started address ≡ ok (to_all_slaves (encode_data empty_packet address) ∷ []))
    × (write_to started address ≡ ok (to_peer (encode_data empty_packet address) ∷ []))
    × (close started ≡ ok (close_connection ∷ []))
    × (destroy started ≡ stops master_role ∷ joins master_role ∷ deletes master_role ∷ [])
    × (destroy (initialized true answer) ≡ stops master_role ∷ deletes master_role ∷ [])
initialize-destroy_example = initialize-destroy true answer address

write-initialize_iff_example :
    (write
        (initialize false answer (initialize_all ((true, answer) ∷ []) new_tcp_manager)).0
        address
      ≡ fault null_pointer)
    ↔ ((false ≡ false) × (true ≡ true))
write-initialize_iff_example = write-initialize_iff ((true, answer) ∷ []) false answer address
