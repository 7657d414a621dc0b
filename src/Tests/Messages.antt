-- ===== src/Tests/Messages.antt =====
-- The theorems on bytes, messages and the connection, on concrete data.
use group_share_filesystem.BytesOrder.Writing.{
  write_network_16, write_network_32, write_network_64, over, write_network_64-host_to_network_64,
}
use group_share_filesystem.Packet.{encode_data}
use group_share_filesystem.TcpMessager.Queue.{dequeue, enqueue}
use group_share_filesystem.TcpMessager.Slave.{write, written}
use group_share_filesystem.TcpMessager.Sending.{begin_writes}
use group_share_filesystem.TcpMessager.Sending.Ends.{IsSent, IsStuck, send_run-ends}
use group_share_filesystem.Base.{
  ◌⊎◌, true, false, none, ◌^◌, ◌/◌, ◌%◌, ◌≡◌, ◌↔◌, refl, Bytes, List, [], ◌∷◌, ◌++◌, ok, none,
  arith,
}
use group_share_filesystem.BytesOrder.{
  host_to_network_16, host_to_network_32, host_to_network_64, network_to_host_64,
}
use group_share_filesystem.BytesOrder.RoundTrip.{network_to_host_64-host_to_network_64_iff}
use group_share_filesystem.TcpMessager.Slave.{new_slave_messager}
use group_share_filesystem.TcpMessager.Receiving.{packet_of}
use group_share_filesystem.TcpMessager.Sending.{
  Sender, SendEvent, post, write_ends, idle_sender, send_run, waiting,
}

abbrev word : Bytes
word = 1 ∷ 2 ∷ 3 ∷ []

abbrev more : Bytes
more = 4 ∷ []

abbrev buffer : Bytes
buffer = 7 ∷ 7 ∷ 7 ∷ 7 ∷ 7 ∷ 7 ∷ 7 ∷ 7 ∷ 9 ∷ []

write_network_64-host_to_network_64_example :
    (write_network_16 258 buffer ≡ over (host_to_network_16 258) buffer)
    × (write_network_32 258 buffer ≡ over (host_to_network_32 258) buffer)
    × (write_network_64 258 buffer ≡ over (host_to_network_64 258) buffer)
write_network_64-host_to_network_64_example = write_network_64-host_to_network_64 258 buffer

network_to_host_64-host_to_network_64_iff_example :
    (network_to_host_64 (host_to_network_64 (2 ^ 56) ++ more) ≡ ok (2 ^ 56))
    ↔ (2 ^ 56 / 2 ^ 56 % 256 ≡ 2 ^ 56 / 2 ^ 48 % 256)
network_to_host_64-host_to_network_64_iff_example =
    network_to_host_64-host_to_network_64_iff (2 ^ 56) more (omega arith)

-- Two calls of `write`, the end of the first write, a third call, and a write that fails.
abbrev events : List SendEvent
events =
    post (packet_of word)
    ∷ post (packet_of more)
    ∷ write_ends false 11
    ∷ post (packet_of word)
    ∷ write_ends true 0
    ∷ []

send_run-ends_example :
    (s : Sender) × (send_run events idle_sender ≡ ok s)
    × (s.started ++ waiting s.messager.write_packets
        ≡ packet_of word ∷ packet_of more ∷ packet_of word ∷ [])
    × (((s.messager.is_open ≡ true)
          × IsSent (packet_of word ∷ packet_of more ∷ packet_of word ∷ []) s)
        ⊎ ((s.messager.is_open ≡ false) × IsStuck s))
send_run-ends_example = send_run-ends events

-- The first write has succeeded, the second has failed.
events-sender :
    send_run events idle_sender
    ≡ ok (record {
      messager = record new_slave_messager {
        is_open = false;
        write_packets = packet_of more ∷ packet_of word ∷ [];
      };
      outstanding = none;
      started = packet_of word ∷ packet_of more ∷ [];
    })
unfolding send_run begin_writes write enqueue written encode_data dequeue
events-sender = refl
