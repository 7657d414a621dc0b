-- ===== src/Packet/Framing.antt =====
-- Encoding a message as a packet, and decoding the two reads that the receiver makes.
use group_share_filesystem.Base.{
  ℕ, ◌^◌, ◌<◌, ◌≡◌, Bytes, ◌++◌, length, ok, length-append, take-length-append, arith,
}
use group_share_filesystem.BytesOrder.{host_to_network_64}
use group_share_filesystem.BytesOrder.RoundTrip.{
  host_to_network_64_bytes, network_to_host_64-host_to_network_64,
}
use group_share_filesystem.Packet.{Packet, encode_data, decode_size, set_data, string_of, wire}

pub length-host_to_network_64 : (v : ℕ) → length (host_to_network_64 v) ≡ 8
length-host_to_network_64 v = rw (host_to_network_64_bytes v)

-- A string at the front of what is readable is read whole.
pub string_of-append : (bytes rest : Bytes) → string_of (bytes ++ rest) (length bytes) ≡ ok bytes
unfolding string_of
string_of-append bytes rest =
    ground (arith, length-append bytes rest, take-length-append bytes rest)

string_of-length :
    (bytes rest : Bytes) (n : ℕ) → n ≡ length bytes → string_of (bytes ++ rest) n ≡ ok bytes
string_of-length bytes rest n e = rw e (string_of-append bytes rest)

-- What an encoded packet puts on the wire: the length in eight bytes, then the message.
pub wire-encode_data :
    (packet : Packet) (message : Bytes)
    → length message < 2 ^ 48
    → wire (encode_data packet message) ≡ ok (host_to_network_64 (length message) ++ message)
unfolding wire encode_data
wire-encode_data packet message h =
    string_of-length (host_to_network_64 (length message) ++ message) _ _ (
      omega (
        arith,
        length-append (host_to_network_64 (length message)) message,
        length-host_to_network_64 (length message),
      ))

pub decode_size-header :
    (packet : Packet) (message rest : Bytes)
    → length message < 2 ^ 48
    → decode_size packet (host_to_network_64 (length message) ++ rest)
      ≡ ok (record packet { size = length message })
unfolding decode_size
decode_size-header packet message rest h =
    rw (network_to_host_64-host_to_network_64 (length message) rest h)

pub set_data-body :
    (packet : Packet) (message rest : Bytes)
    → packet.size ≡ length message
    → set_data packet (message ++ rest) ≡ ok (record packet { data_bytes = message })
unfolding set_data
set_data-body packet message rest e = rw (string_of-length message rest packet.size e)
