-- ===== src/Group/Reception.antt =====
-- What a slave of the group does with the messages that are on their way to it, against the handlers of
-- its messager in src/tcp_messager.cc on the bytes that the master's messager writes.
use group_share_filesystem.Base.{
  Option, ℕ, ◌≡◌, refl, sym, ap, ◌^◌, ◌<◌, ◌∙◌, false, Bytes, List, [], ◌∷◌, ◌++◌, map,
  append_assoc, length, ok, ◌>>=◌,
}
use group_share_filesystem.Archive.{Archive}
use group_share_filesystem.BytesOrder.{host_to_network_64}
use group_share_filesystem.TcpManager.Outages.{call_back}
use group_share_filesystem.TcpManager.{read_from_master}
use group_share_filesystem.Packet.{Packet}
use group_share_filesystem.TcpMessager.Slave.{
  SlaveMessager, header, body, Action, start_read, deliver,
}
use group_share_filesystem.TcpMessager.Slave.Events.{
  Line, Event, read_ends, posts, write_ends, end_reading, step, run,
}
use group_share_filesystem.TcpMessager.Receiving.{
  AreShort, packet_of, received, wire_all, stream, wire_all-stream, header_read_lem, body_read_lem,
}
use group_share_filesystem.UserFs.{UserFs}
use group_share_filesystem.Group.{read_all}

-- The reads that end as some messages come: of a length, and of a message.
abbrev pub arrivals : List Bytes → List Event
arrivals [] = []
arrivals (message ∷ messages) =
    read_ends false (host_to_network_64 (length message))
    ∷ read_ends false message
    ∷ arrivals messages

-- The bytes that the reads have taken from the socket.
abbrev pub bytes_read : List Event → Bytes
bytes_read [] = []
bytes_read (read_ends ec buffer ∷ events) = buffer ++ bytes_read events
bytes_read (posts p ∷ events) = bytes_read events
bytes_read (write_ends ec count ∷ events) = bytes_read events

bytes_read-arrivals : (messages : List Bytes) → bytes_read (arrivals messages) ≡ stream messages
bytes_read-arrivals [] = refl
bytes_read-arrivals (message ∷ messages) =
    ap (λ rest. host_to_network_64 (length message) ++ (message ++ rest))
      (bytes_read-arrivals messages)
    ∙ sym (append_assoc (host_to_network_64 (length message)) message (stream messages))

-- A line that waits for a length, or for a message of so many bytes.
abbrev at_header : SlaveMessager → Option Packet → Line
at_header m writing = record { messager = record m { reading = header }; writing = writing }

abbrev at_body : SlaveMessager → ℕ → Option Packet → Line
at_body m n writing = record {
  messager = record m { reading = body; packet = record m.packet { size = n } };
  writing = writing;
}

module _ (m : SlaveMessager) (writing : Option Packet) (message : Bytes) where
  step-header :
      length message < 2 ^ 48
      → step (read_ends false (host_to_network_64 (length message))) (at_header m writing)
        ≡ ok (at_body m (length message) writing, start_read (length message) ∷ [])
  unfolding step end_reading
  step-header short = rw (header_read_lem m message short) refl

  step-body :
      step (read_ends false message) (at_body m (length message) writing)
      ≡ ok (
        at_header (record m { packet = received message }) writing,
        deliver (received message) ∷ start_read 8 ∷ [],
      )
  unfolding step end_reading
  step-body = rw (body_read_lem m message) refl

module _ (archive : Archive) where
  run-arrivals :
      (messages : List Bytes) (m : SlaveMessager) (writing : Option Packet)
      → AreShort messages
      → (m' : SlaveMessager) × (actions : List Action) × (run
            (arrivals messages)
            (at_header m writing)
          ≡ ok (at_header m' writing, actions))
        × ((fs : UserFs) → call_back archive actions fs ≡ read_all archive messages fs)
  unfolding run read_all call_back
  run-arrivals [] m writing short = (m, [], refl, λ fs. refl)
  run-arrivals (message ∷ messages) m writing short =
      let (m', actions, runs, same) =
        run-arrivals messages (record m { packet = received message }) writing short.1 in
      (
        m',
        start_read (length message) ∷ deliver (received message) ∷ start_read 8 ∷ actions,
        rw (step-header m writing message short.0, step-body m writing message, runs) refl,
        λ fs. ap (λ f. read_from_master archive (received message) fs >>= f) (λ i gs. same gs i),
      )

-- The messages that are on their way to a slave of the group, each shorter than 2 ^ 48 bytes: what the
-- master's messager writes for their packets is what the reads of the slave's messager take, and if that
-- waits for a length then no handler faults, it waits for a length again, and its callbacks do to the
-- node what the slave of the group does by reading the messages.
pub read_all-run :
    (archive : Archive) (messages : List Bytes) (l : Line) (fs : UserFs)
    → AreShort messages
    → l.messager.reading ≡ header
    → (l' : Line) × (actions : List Action) × (wire_all (map packet_of messages)
        ≡ ok (bytes_read (arrivals messages)))
      × (run (arrivals messages) l ≡ ok (l', actions))
      × (l'.messager.reading ≡ header)
      × (call_back archive actions fs ≡ read_all archive messages fs)
read_all-run archive messages l fs short waits =
    let (m', actions, runs, same) = run-arrivals archive messages l.messager l.writing short in
    let as_waiting : l ≡ at_header l.messager l.writing =
      λ i. record l { messager = record l.messager { reading = waits i } } in
    (
      at_header m' l.writing,
      actions,
      wire_all-stream messages short ∙ ap ok (sym (bytes_read-arrivals messages)),
      ap (run (arrivals messages)) as_waiting ∙ runs,
      refl,
      same fs,
    )
