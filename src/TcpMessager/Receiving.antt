-- ===== src/TcpMessager/Receiving.antt =====
-- The receiving side of TCPSlaveMessager in src/tcp_messager.cc, on the bytes that the other side wrote.
use group_share_filesystem.Base.{
  ℕ, zero, suc, ◌^◌, ◌<◌, ◌≡◌, refl, sym, ap, ◌∙◌, leb, if◌then◌else◌, true, false, Bytes, List, [],
  ◌∷◌, ◌++◌, map, append_assoc, append-nil, length, take, drop, take-length-append,
  drop-length-append, length-append, Outcome, ok, bind-ok, ◌>>=◌, arith, ==_iff,
}
use group_share_filesystem.BytesOrder.{host_to_network_64}
use group_share_filesystem.Packet.{
  Packet, empty_packet, size_length, encode_data, decode_size, set_data, wire,
}
use group_share_filesystem.Packet.Framing.{
  length-host_to_network_64, wire-encode_data, decode_size-header, set_data-body,
}
use group_share_filesystem.TcpMessager.Slave.Events.{deliveries}
use group_share_filesystem.TcpMessager.Slave.{
  SlaveMessager, Reading, idle, connecting, header, body, Action, deliver, start_read, header_read,
  body_read,
}

-- A messager, the packets that it has passed on, and the bytes that have come and are not yet read.
pub record Receiver : Type 0 where
  pub messager : SlaveMessager
  pub delivered : List Packet
  pub incoming : Bytes

took : ℕ → Receiver → SlaveMessager × List Action → Receiver
took n r (m, actions) = record {
  messager = m;
  delivered = r.delivered ++ deliveries actions;
  incoming = drop n r.incoming;
}

-- `async_read` of `n` bytes ends when they have all come, and takes no more than them.
read_ends : Reading → Receiver → Outcome Receiver
unfolding took
read_ends idle r = ok r
read_ends connecting r = ok r
read_ends header r =
    if leb size_length (length r.incoming)
    then (header_read false (take size_length r.incoming) r.messager >>= λ step.
        ok (took size_length r step))
    else ok r
read_ends body r =
    let n = r.messager.packet.size in
    if leb n (length r.incoming)
    then (body_read false (take n r.incoming) r.messager >>= λ step. ok (took n r step))
    else ok r

-- So many reads in a row.
unfoldable pub reads : ℕ → Receiver → Outcome Receiver
unfolding read_ends
reads zero r = ok r
reads (suc n) r = read_ends r.messager.reading r >>= reads n

-- The bytes of some packets, written one after the other.
unfoldable pub wire_all : List Packet → Outcome Bytes
wire_all [] = ok []
wire_all (p ∷ packets) = do first ← wire p; more ← wire_all packets; ok (first ++ more)

-- Each message is shorter than 2 ^ 48 bytes.
abbrev pub AreShort : List Bytes → Type 0
AreShort [] = Unit
AreShort (message ∷ messages) = (length message < 2 ^ 48) × AreShort messages

abbrev pub packet_of : Bytes → Packet
packet_of = encode_data empty_packet

-- A packet as it is when its message has been read.
abbrev pub received : Bytes → Packet
received message = record { size = length message; data_bytes = message }

abbrev framed : Bytes → Bytes
framed message = host_to_network_64 (length message) ++ message

abbrev pub stream : List Bytes → Bytes
stream [] = []
stream (message ∷ messages) = framed message ++ stream messages

pub wire_all-stream :
    (messages : List Bytes)
    → AreShort messages
    → wire_all (map packet_of messages) ≡ ok (stream messages)
unfolding wire_all
wire_all-stream [] h = refl
wire_all-stream (message ∷ messages) h =
    rw (wire-encode_data empty_packet message h.0, wire_all-stream messages h.1)

-- A messager that waits for a length.
abbrev pub at_header : SlaveMessager → List Packet → Bytes → Receiver
at_header m delivered incoming = record {
  messager = record m { reading = header };
  delivered = delivered;
  incoming = incoming;
}

-- A messager that waits for a message of that length.
abbrev at_body : SlaveMessager → ℕ → List Packet → Bytes → Receiver
at_body m n delivered incoming = record {
  messager = record m { reading = body; packet = record m.packet { size = n } };
  delivered = delivered;
  incoming = incoming;
}

abbrev after_body : SlaveMessager → Bytes → SlaveMessager
after_body m message = record m { packet = received message }

-- A count of bytes at the front of what has come.
module _ (n : ℕ) (xs ys : Bytes) (e : n ≡ length xs) where
  take_front : take n (xs ++ ys) ≡ xs
  take_front = rw e (take-length-append xs ys)

  drop_front : drop n (xs ++ ys) ≡ ys
  drop_front = rw e (drop-length-append xs ys)

  leb_front : leb n (length (xs ++ ys)) ≡ true
  leb_front = ground (arith, length-append xs ys)

pub header_read_lem :
    (m : SlaveMessager) (message : Bytes)
    → length message < 2 ^ 48
    → header_read false (host_to_network_64 (length message)) (record m { reading = header })
      ≡ ok (
        record m { reading = body; packet = record m.packet { size = length message } },
        start_read (length message) ∷ [],
      )
unfolding header_read
header_read_lem m message h =
    let bytes = host_to_network_64 (length message) in
    let decoded : decode_size m.packet bytes ≡ ok (record m.packet { size = length message }) =
      ap (decode_size m.packet) (sym (append-nil bytes))
      ∙ decode_size-header m.packet message [] h in
    rw (length-host_to_network_64 (length message), decoded)

pub body_read_lem :
    (m : SlaveMessager) (message : Bytes)
    → body_read false message
        (record m { reading = body; packet = record m.packet { size = length message } })
      ≡ ok (
        record m { reading = header; packet = received message },
        deliver (received message) ∷ start_read size_length ∷ [],
      )
unfolding body_read
body_read_lem m message =
    let sized = record m.packet { size = length message } in
    let set : set_data sized message ≡ ok (received message) =
      ap (set_data sized) (sym (append-nil message)) ∙ set_data-body sized message [] refl in
    rw ((==_iff (length message) (length message)).1 refl, set)

header_ends :
    (m : SlaveMessager) (message rest : Bytes) (done : List Packet)
    → length message < 2 ^ 48
    → reads 1 (at_header m done (framed message ++ rest))
      ≡ ok (at_body m (length message) done (message ++ rest))
unfolding reads
header_ends m message rest done h =
    let bytes = host_to_network_64 (length message) in
    let eight : size_length ≡ length bytes = sym (length-host_to_network_64 (length message)) in
    rw (append_assoc bytes message rest) (
      rw (
        leb_front size_length bytes (message ++ rest) eight,
        take_front size_length bytes (message ++ rest) eight,
        header_read_lem m message h,
        drop_front size_length bytes (message ++ rest) eight,
        append-nil done,
      ))

body_ends :
    (m : SlaveMessager) (message rest : Bytes) (done : List Packet)
    → reads 1 (at_body m (length message) done (message ++ rest))
      ≡ ok (at_header (after_body m message) (done ++ received message ∷ []) rest)
unfolding reads
body_ends m message rest done = rw (
  leb_front (length message) message rest refl,
  take_front (length message) message rest refl,
  body_read_lem m message,
  drop_front (length message) message rest refl,
)

reads-suc : (n : ℕ) (r : Receiver) → reads (suc n) r ≡ (reads 1 r >>= reads n)
unfolding reads
reads-suc n r = sym (bind-ok (read_ends r.messager.reading r) (reads n))

-- Two reads take one message.
reads-message :
    (n : ℕ) (m : SlaveMessager) (message rest : Bytes) (done : List Packet)
    → length message < 2 ^ 48
    → reads (suc (suc n)) (at_header m done (framed message ++ rest))
      ≡ reads n (at_header (after_body m message) (done ++ received message ∷ []) rest)
reads-message n m message rest done h = rw (
  reads-suc (suc n),
  header_ends m message rest done h,
  reads-suc n (at_body m (length message) done (message ++ rest)),
  body_ends m message rest done,
)

-- Twice the number of messages.
abbrev reads_for : List Bytes → ℕ
reads_for [] = 0
reads_for (message ∷ messages) = suc (suc (reads_for messages))

reads-stream :
    (messages : List Bytes) (m : SlaveMessager) (done : List Packet) (rest : Bytes)
    → AreShort messages
    → (m' : SlaveMessager) × (reads
          (reads_for messages)
          (at_header m done (stream messages ++ rest))
        ≡ ok (at_header m' (done ++ map received messages) rest))
unfolding reads
reads-stream [] m done rest h = (m, simp append-nil)
reads-stream (message ∷ messages) m done rest h =
    let (m', run) =
      reads-stream messages (after_body m message) (done ++ received message ∷ []) rest h.1 in
    (
      m',
      ap (λ bytes. reads (reads_for (message ∷ messages)) (at_header m done bytes))
            (append_assoc (framed message) (stream messages) rest)
          ∙ reads-message (reads_for messages) m message (stream messages ++ rest) done h.0
          ∙ run
          ∙ ap (λ packets. ok (at_header m' packets rest))
              (append_assoc done (received message ∷ []) (map received messages)),
    )

-- What one side writes for a row of messages, each shorter than 2 ^ 48 bytes, the other side reads: two
-- reads for each message pass the same messages on, in the same order, and leave the bytes that follow.
reads-wire_all :
    (messages : List Bytes) (m : SlaveMessager) (rest : Bytes)
    → AreShort messages
    → (bytes : Bytes) × (r : Receiver) × (wire_all (map packet_of messages) ≡ ok bytes)
      × (reads (reads_for messages) (at_header m [] (bytes ++ rest)) ≡ ok r)
      × (r.delivered ≡ map received messages)
      × (r.incoming ≡ rest)
reads-wire_all messages m rest h =
    let (m', run) = reads-stream messages m [] rest h in
    (
      stream messages,
      at_header m' (map received messages) rest,
      wire_all-stream messages h,
      run,
      refl,
      refl,
    )
