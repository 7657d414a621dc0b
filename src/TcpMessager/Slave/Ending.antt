-- ===== src/TcpMessager/Slave/Ending.antt =====
-- How an operation of TCPSlaveMessager in src/tcp_messager.cc ends: each handler returns, and what it tells the
-- owner.
use group_share_filesystem.Base.{
  ℕ, ◌+◌, ◌≡◌, refl, ◌==◌, ==_iff, Bool-cases, inl, inr, Bool, true, false, Bytes, List, [], ◌∷◌,
  length, take, leb, ok, Option, none, some, arith,
}
use group_share_filesystem.BytesOrder.RoundTrip.{network_to_host_64-total}
use group_share_filesystem.Packet.{Packet, size_length, decode_size, set_data, string_of}
use group_share_filesystem.TcpMessager.Queue.{dequeue}
use group_share_filesystem.TcpMessager.Slave.{
  SlaveMessager, Reading, idle, connecting, header, body, Action, start_read, start_write, deliver,
  disconnected, connected, header_read, body_read, written,
}
use group_share_filesystem.TcpMessager.Slave.Events.{
  told, deliveries, Line, end_reading, end_writing,
}

-- The connection or a read has failed, and no read starts again.
abbrev pub over_reading : Reading → ℕ
over_reading idle = 1
over_reading connecting = 0
over_reading header = 0
over_reading body = 0

-- A write has failed: its packet stays at the front of the queue, and no write starts again.
abbrev pub over_writing : List Packet → Option Packet → ℕ
over_writing [] writing = 0
over_writing (p ∷ queue) (some w) = 0
over_writing (p ∷ queue) none = 1

abbrev pub over : Line → ℕ
over l = over_reading l.messager.reading + over_writing l.messager.write_packets l.writing

-- The packet that is being written, if there is one, is the front of the queue.
abbrev pub IsFront : Option Packet → List Packet → Type 0
IsFront none queue = Unit
IsFront (some p) [] = ⊥
IsFront (some p) (q ∷ queue) = p ≡ q

abbrev pub HasFront : Line → Type 0
HasFront l = IsFront l.writing l.messager.write_packets

decode_size-total :
    (packet : Packet) (buffer : Bytes)
    → (length buffer == size_length) ≡ true
    → (n : ℕ) × (decode_size packet buffer ≡ ok (record packet { size = n }))
unfolding decode_size
decode_size-total packet buffer e =
    let (n, decoded) = network_to_host_64-total buffer ((==_iff (length buffer) 8).0 e) in
    (n, rw decoded refl)

set_data-total :
    (packet : Packet) (buffer : Bytes)
    → (length buffer == packet.size) ≡ true
    → (bytes : Bytes) × (set_data packet buffer ≡ ok (record packet { data_bytes = bytes }))
unfolding set_data string_of
set_data-total packet buffer e =
    let fits : leb packet.size (length buffer) ≡ true = ground (arith, e) in
    (take packet.size buffer, rw fits refl)

-- The end of a read leaves the queue alone, and tells the owner as often as the reading is over.
unfoldable pub EndsReading : Reading → Bool → Bytes → SlaveMessager → Type 0
EndsReading r ec buffer m =
    (m' : SlaveMessager) × (actions : List Action) × (end_reading r ec buffer m ≡ ok (m', actions))
    × (m'.write_packets ≡ m.write_packets)
    × (r ≡ idle → (m'.reading ≡ idle) × (deliveries actions ≡ []))
    × (told actions + over_reading r ≡ over_reading m'.reading)

-- What a failed read leaves.
abbrev gave_up : SlaveMessager → SlaveMessager
gave_up m = record m { is_open = false; reading = idle }

pub end_reading-EndsReading :
    (r : Reading) (ec : Bool) (buffer : Bytes) (m : SlaveMessager)
    → m.reading ≡ r
    → EndsReading r ec buffer m
unfolding EndsReading end_reading connected header_read body_read
end_reading-EndsReading idle ec buffer m e = (m, [], refl, refl, λ _. (e, refl), rw e refl)
end_reading-EndsReading connecting true buffer m e = (_, _, refl, refl, λ h. absurd (cc h), refl)
end_reading-EndsReading connecting false buffer m e = (_, _, refl, refl, λ h. absurd (cc h), refl)
end_reading-EndsReading header true buffer m e = (_, _, refl, refl, λ h. absurd (cc h), refl)
end_reading-EndsReading header false buffer m e = elim (Bool-cases (length buffer == size_length)) [
  | inl eight ↦
      (let (n, decoded) = decode_size-total m.packet buffer eight in
        (
          record m { packet = record m.packet { size = n }; reading = body },
          start_read n ∷ [],
          rw (eight, decoded) refl,
          refl,
          λ h. absurd (cc h),
          refl,
        ))
  | inr other ↦ (gave_up m, disconnected ∷ [], rw other refl, refl, λ h. absurd (cc h), refl)
]
end_reading-EndsReading body true buffer m e = (_, _, refl, refl, λ h. absurd (cc h), refl)
end_reading-EndsReading body false buffer m e = elim (Bool-cases (length buffer == m.packet.size)) [
  | inl all ↦
      (let (bytes, set) = set_data-total m.packet buffer all in
        let packet = record m.packet { data_bytes = bytes } in
        (
          record m { packet = packet; reading = header },
          deliver packet ∷ start_read size_length ∷ [],
          rw (all, set) refl,
          refl,
          λ h. absurd (cc h),
          refl,
        ))
  | inr other ↦ (gave_up m, disconnected ∷ [], rw other refl, refl, λ h. absurd (cc h), refl)
]

-- The end of a write leaves the reading alone.
unfoldable pub EndsWriting : Bool → ℕ → Line → Type 0
EndsWriting ec count l =
    (l' : Line) × (actions : List Action) × (end_writing l.writing ec count l ≡ ok (l', actions))
    × HasFront l'
    × (l'.messager.reading ≡ l.messager.reading)
    × (deliveries actions ≡ [])
    × (told actions ≡ over_writing l'.messager.write_packets l'.writing)

-- A line that writes, or has failed to.
abbrev pub with_queue : SlaveMessager → List Packet → Option Packet → Line
with_queue m queue writing = record {
  messager = record m { write_packets = queue };
  writing = writing;
}

pub end_writing-EndsWriting :
    (ec : Bool) (count : ℕ) (m : SlaveMessager) (p : Packet) (queue : List Packet)
    → EndsWriting ec count (with_queue m (p ∷ queue) (some p))
unfolding EndsWriting end_writing written dequeue
end_writing-EndsWriting true count m p queue = (_, _, refl, tt, refl, refl, refl)
end_writing-EndsWriting false count m p [] = elim (Bool-cases (count == p.size)) [
  | inl all ↦ (with_queue m [] none, [], rw all refl, tt, refl, refl, refl)
  | inr other ↦ (
    with_queue (record m { is_open = false }) (p ∷ []) none,
    disconnected ∷ [],
    rw other refl,
    tt,
    refl,
    refl,
    refl,
  )
]
end_writing-EndsWriting false count m p (q ∷ rest) = elim (Bool-cases (count == p.size)) [
  | inl all ↦
      (with_queue m (q ∷ rest) (some q), start_write q ∷ [], rw all refl, refl, refl, refl, refl)
  | inr other ↦ (
    with_queue (record m { is_open = false }) (p ∷ q ∷ rest) none,
    disconnected ∷ [],
    rw other refl,
    tt,
    refl,
    refl,
    refl,
  )
]
