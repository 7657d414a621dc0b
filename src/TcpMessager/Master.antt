-- ===== src/TcpMessager/Master.antt =====
-- Class TCPMasterMessager of src/tcp_messager.h and src/tcp_messager.cc: a list of connections, and
-- handlers that work on one of them or on all. A handle is an iterator into the list: elements are
-- never erased, so it is the count of connections that were accepted before.
pub mod Accepting
pub mod Closing
pub mod Ordering
pub mod Lines
pub mod Events
pub mod InOrder
use group_share_filesystem.Base.{
  ℕ, ◌==◌, if◌then◌else◌, not, ◌&&◌, Bool, true, false, Bytes, List, [], ◌∷◌, ◌++◌, length, Outcome,
  ok, fault, bad_index, ◌>>=◌,
}
use group_share_filesystem.Packet.{Packet, empty_packet, size_length, decode_size, set_data}
use group_share_filesystem.TcpMessager.Queue.{enqueue, dequeue}
use group_share_filesystem.TcpMessager.Slave.{
  Action, start_read, deliver, disconnected, starts, front_size,
}

-- The tuple of a connection: its socket is open or not; the buffer is an argument of the handlers.
pub record Connection : Type 0 where
  pub is_open : Bool
  pub packet : Packet
  pub write_packets : List Packet
  pub slave_id : ℕ

pub record MasterMessager : Type 0 where
  pub connections : List (ℕ × Connection)

-- The messager before a connection has come.
abbrev pub new_master_messager : MasterMessager
new_master_messager = record { connections = [] }

-- What `do_accept` pushes to the front.
abbrev pub accepted_connection : Connection
accepted_connection = record {
  is_open = true;
  packet = empty_packet;
  write_packets = [];
  slave_id = 0;
}

-- `close`
unfoldable pub close_connection : Connection → Connection × List Action
close_connection c =
    if c.is_open
    then (record c { is_open = false; write_packets = [] }, disconnected ∷ [])
    else (c, [])

-- The end of the read in `do_read_header`.
unfoldable pub header_ends : Bool → Bytes → Connection → Outcome (Connection × List Action)
unfolding close_connection
header_ends ec buffer c =
    if not ec && length buffer == size_length
    then (decode_size c.packet buffer >>= λ packet.
        ok (record c { packet = packet }, start_read packet.size ∷ []))
    else ok (close_connection c)

-- The end of the read in `do_read_body`.
unfoldable pub body_ends : Bool → Bytes → Connection → Outcome (Connection × List Action)
unfolding close_connection
body_ends ec buffer c =
    if not ec && length buffer == c.packet.size
    then (set_data c.packet buffer >>= λ packet.
        ok (record c { packet = packet }, deliver packet ∷ start_read size_length ∷ []))
    else ok (close_connection c)

-- The push on one queue, which `writeTo` does without a look at the socket.
unfoldable pub push_packet : Packet → Connection → Connection × List Action
push_packet packet c =
    let (queue, started) = enqueue packet c.write_packets in
    (record c { write_packets = queue }, starts started)

-- The body of the loop in `write`.
unfoldable pub push_if_open : Packet → Connection → Connection × List Action
unfolding push_packet
push_if_open packet c = if c.is_open then push_packet packet c else (c, [])

unfoldable pub after_write : Bool → Connection → Connection × List Action
unfolding close_connection
after_write true c =
    let (queue, started) = dequeue c.write_packets in
    (record c { write_packets = queue }, starts started)
after_write false c = close_connection c

-- The end of the write in `do_write`, with the count of bytes written.
unfoldable pub write_ends : Bool → ℕ → Connection → Outcome (Connection × List Action)
unfolding after_write front_size
write_ends true count c = ok (after_write false c)
write_ends false count c = do size ← front_size c.write_packets; ok (after_write (count == size) c)

-- What the handlers of a connection start or call, with its handle.
abbrev pub tag : ℕ → List Action → List (ℕ × Action)
tag handle [] = []
tag handle (a ∷ actions) = (handle, a) ∷ tag handle actions

-- A handler on the connection of a handle; there is no other way to a connection.
unfoldable pub at_handle :
    ℕ
    → (Connection → Outcome (Connection × List Action))
    → List (ℕ × Connection)
    → Outcome (List (ℕ × Connection) × List (ℕ × Action))
at_handle handle f [] = fault bad_index
at_handle handle f ((i, c) ∷ rest) =
    if i == handle
    then (f c >>= λ r. ok ((i, r.0) ∷ rest, tag i r.1))
    else (at_handle handle f rest >>= λ r. ok ((i, c) ∷ r.0, r.1))

-- The loop over all connections.
unfoldable pub write_loop :
    Packet → List (ℕ × Connection) → List (ℕ × Connection) × List (ℕ × Action)
write_loop packet [] = ([], [])
write_loop packet ((i, c) ∷ rest) =
    let (c', actions) = push_if_open packet c in
    let (rest', more) = write_loop packet rest in ((i, c') ∷ rest', tag i actions ++ more)

-- The events: the operation of a handle ended, a posted call runs, or the owner calls `close`.
pub data Event : Type 0 where
  accepts : Bool → Event
  reads_header reads_body : ℕ → Bool → Bytes → Event
  writes_all : Packet → Event
  writes_to : Packet → ℕ → Event
  closes : ℕ → Event
  ends_write : ℕ → Bool → ℕ → Event

-- The end of `async_accept`; the next accept starts in any case.
unfoldable pub accept_ends :
    Bool → List (ℕ × Connection) → List (ℕ × Connection) × List (ℕ × Action)
accept_ends true connections = (connections, [])
accept_ends false connections =
    let handle = length connections in
    ((handle, accepted_connection) ∷ connections, (handle, start_read size_length) ∷ [])

unfoldable pub handle_event :
    Event → List (ℕ × Connection) → Outcome (List (ℕ × Connection) × List (ℕ × Action))
handle_event (accepts ec) cs = ok (accept_ends ec cs)
handle_event (reads_header handle ec buffer) cs = at_handle handle (header_ends ec buffer) cs
handle_event (reads_body handle ec buffer) cs = at_handle handle (body_ends ec buffer) cs
handle_event (writes_all packet) cs = ok (write_loop packet cs)
handle_event (writes_to packet handle) cs = at_handle handle (λ c. ok (push_packet packet c)) cs
handle_event (closes handle) cs = at_handle handle (λ c. ok (close_connection c)) cs
handle_event (ends_write handle ec count) cs = at_handle handle (write_ends ec count) cs

-- One event.
unfoldable pub step : Event → MasterMessager → Outcome (MasterMessager × List (ℕ × Action))
unfolding handle_event accept_ends at_handle write_loop push_if_open push_packet close_connection
    write_ends header_ends body_ends
step event m = handle_event event m.connections >>= λ r. ok (record { connections = r.0 }, r.1)

-- A row of events, with all that they start and call.
unfoldable pub run : List Event → MasterMessager → Outcome (MasterMessager × List (ℕ × Action))
unfolding step
run [] m = ok (m, [])
run (event ∷ events) m = step event m >>= λ r. run events r.0 >>= λ s. ok (s.0, r.1 ++ s.1)
