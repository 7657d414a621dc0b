-- ===== src/Packet.antt =====
-- Class Packet of src/tcp_messager.h: a length and the bytes that go over the wire. A packet to send
-- holds its eight-byte length followed by the message; a received one holds the message alone.
pub mod Framing
use group_share_filesystem.Base.{
  ℕ, ◌+◌, ◌%◌, ◌^◌, leb, if◌then◌else◌, Bytes, [], ◌∷◌, ◌++◌, length, take, Outcome, ok, fault,
  over_read, ◌>>=◌,
}
use group_share_filesystem.BytesOrder.{host_to_network_64, network_to_host_64}

pub record Packet : Type 0 where
  pub size : ℕ
  pub data_bytes : Bytes

-- `sizeof(_size)`
abbrev pub size_length : ℕ
size_length = 8

-- `Packet()`
abbrev pub empty_packet : Packet
empty_packet = record { size = 0; data_bytes = [] }

unfoldable pub encode_data : Packet → Bytes → Packet
encode_data packet message = record packet {
  size = (length message + size_length) % 2 ^ 64;
  data_bytes = host_to_network_64 (length message) ++ message;
}

unfoldable pub decode_size : Packet → Bytes → Outcome Packet
decode_size packet pointer = do n ← network_to_host_64 pointer; ok (record packet { size = n })

-- `std::string(pointer, n)`, and `assign`: the bytes must all be readable.
unfoldable pub string_of : Bytes → ℕ → Outcome Bytes
string_of pointer n = if leb n (length pointer) then ok (take n pointer) else fault over_read

unfoldable pub set_data : Packet → Bytes → Outcome Packet
set_data packet pointer = do
  bytes ← string_of pointer packet.size
  ok (record packet { data_bytes = bytes })

-- `data()`: a `std::string` ends in a zero byte that may be read too.
abbrev pub readable : Packet → Bytes
readable packet = packet.data_bytes ++ 0 ∷ []

-- The bytes that `async_write` is given: `data()` and `size()`.
unfoldable pub wire : Packet → Outcome Bytes
wire packet = string_of (readable packet) packet.size
