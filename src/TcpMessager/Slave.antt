-- ===== src/TcpMessager/Slave.antt =====
-- Class TCPSlaveMessager of src/tcp_messager.h and src/tcp_messager.cc.
pub mod Events
pub mod Ending
pub mod Telling
pub mod Outages
use group_share_filesystem.Base.{
  ℕ, ◌==◌, if◌then◌else◌, not, ◌&&◌, Bool, true, false, Bytes, List, [], ◌∷◌, length, Outcome, ok,
  fault, over_read, ◌>>=◌,
}
use group_share_filesystem.Packet.{Packet, empty_packet, size_length, decode_size, set_data}
use group_share_filesystem.TcpMessager.Queue.{enqueue, dequeue}

-- What is under way of the connection and the reads that follow it: nothing, the connection, the read of
-- the eight bytes of a length, or of a message.
pub data Reading : Type 0 where
  idle connecting header body : Reading

pub record SlaveMessager : Type 0 where
  pub is_open : Bool
  pub reading : Reading
  pub packet : Packet
  pub write_packets : List Packet

-- What a handler starts or calls: a read of so many bytes, a write of a packet, and the two callbacks
-- of the owner.
pub data Action : Type 0 where
  start_read : ℕ → Action
  start_write : Packet → Action
  deliver : Packet → Action
  disconnected : Action

-- The messager before `do_connect`.
abbrev pub new_slave_messager : SlaveMessager
new_slave_messager = record {
  is_open = true;
  reading = idle;
  packet = empty_packet;
  write_packets = [];
}

abbrev pub starts : List Packet → List Action
starts [] = []
starts (p ∷ ps) = start_write p ∷ starts ps

-- `do_connect`, with which `start` begins.
abbrev pub do_connect : SlaveMessager → SlaveMessager
do_connect m = record m { reading = connecting }

do_read_header : SlaveMessager → SlaveMessager × List Action
do_read_header m = (record m { reading = header }, start_read size_length ∷ [])

do_read_body : SlaveMessager → SlaveMessager × List Action
do_read_body m = (record m { reading = body }, start_read m.packet.size ∷ [])

-- `_socket.close(); disconnect();`
give_up : SlaveMessager → SlaveMessager × List Action
give_up m = (record m { is_open = false }, disconnected ∷ [])

-- The same at the end of a read, after which no other read starts.
give_up_reading : SlaveMessager → SlaveMessager × List Action
unfolding give_up
give_up_reading m = give_up (record m { reading = idle })

-- The end of `async_connect`; true is an error.
unfoldable pub connected : Bool → SlaveMessager → SlaveMessager × List Action
unfolding do_read_header
connected true m = (record m { reading = idle }, disconnected ∷ [])
connected false m = do_read_header m

-- The end of the read in `do_read_header`, with the bytes that have come.
unfoldable pub header_read : Bool → Bytes → SlaveMessager → Outcome (SlaveMessager × List Action)
unfolding do_read_body give_up_reading
header_read ec buffer m =
    if not ec && length buffer == size_length
    then (decode_size m.packet buffer >>= λ packet.
        ok (do_read_body (record m { packet = packet })))
    else ok (give_up_reading m)

-- The packet goes to the owner, and the next read starts.
pass_on : SlaveMessager → Packet → SlaveMessager × List Action
pass_on m packet =
    (record m { packet = packet; reading = header }, deliver packet ∷ start_read size_length ∷ [])

-- The end of the read in `do_read_body`.
unfoldable pub body_read : Bool → Bytes → SlaveMessager → Outcome (SlaveMessager × List Action)
unfolding give_up_reading pass_on
body_read ec buffer m =
    if not ec && length buffer == m.packet.size
    then (set_data m.packet buffer >>= λ packet. ok (pass_on m packet))
    else ok (give_up_reading m)

-- `write`, when the posted function runs.
unfoldable pub write : Packet → SlaveMessager → SlaveMessager × List Action
write packet m =
    let (queue, started) = enqueue packet m.write_packets in
    (record m { write_packets = queue }, starts started)

-- `front()` of an empty queue is undefined.
unfoldable pub front_size : List Packet → Outcome ℕ
front_size [] = fault over_read
front_size (p ∷ queue) = ok p.size

after_write : Bool → SlaveMessager → SlaveMessager × List Action
unfolding give_up
after_write true m =
    let (queue, started) = dequeue m.write_packets in
    (record m { write_packets = queue }, starts started)
after_write false m = give_up m

-- The end of the write in `do_write`, with the count of bytes written.
unfoldable pub written : Bool → ℕ → SlaveMessager → Outcome (SlaveMessager × List Action)
unfolding after_write front_size
written true count m = ok (after_write false m)
written false count m = do size ← front_size m.write_packets; ok (after_write (count == size) m)
