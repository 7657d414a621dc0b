-- ===== src/BytesOrder.antt =====
-- src/bytes_order.h: numbers to and from bytes, least significant byte first. A pointer is the list of
-- the bytes that may be read from it; a host number is a natural number below 2 ^ its width.
pub mod RoundTrip
pub mod Writing
use group_share_filesystem.Base.{
  ℕ, ◌*◌, ◌/◌, ◌%◌, ◌^◌, bit_and, bit_or, Bytes, [], ◌∷◌, get_elem?, Outcome, ok, or_fault,
  over_read, ◌>>=◌,
}

-- `host >> k & 0xff`
abbrev pub byte_of : ℕ → ℕ → ℕ
byte_of host k = bit_and (host / 2 ^ k) 0xff

-- `network[i]`, which must be readable.
abbrev network_byte : Bytes → ℕ → Outcome ℕ
network_byte network i = or_fault over_read (get_elem? network i)

unfoldable pub host_to_network_16 : ℕ → Bytes
host_to_network_16 host = byte_of host 0 ∷ byte_of host 8 ∷ []

unfoldable pub host_to_network_32 : ℕ → Bytes
host_to_network_32 host = byte_of host 0 ∷ byte_of host 8 ∷ byte_of host 16 ∷ byte_of host 24 ∷ []

unfoldable pub host_to_network_64 : ℕ → Bytes
host_to_network_64 host =
    byte_of host 0
    ∷ byte_of host 8
    ∷ byte_of host 16
    ∷ byte_of host 24
    ∷ byte_of host 32
    ∷ byte_of host 40
    ∷ byte_of host 48
    ∷ byte_of host 56
    ∷ []

-- The sum is formed as an `int`, and the assignment keeps 16 bits.
unfoldable pub network_to_host_16 : Bytes → Outcome ℕ
network_to_host_16 network = do
  b0 ← network_byte network 0
  b1 ← network_byte network 1
  ok (bit_or b0 (b1 * 2 ^ 8) % 2 ^ 16)

-- The same with 32 bits.
unfoldable pub network_to_host_32 : Bytes → Outcome ℕ
network_to_host_32 network = do
  b0 ← network_byte network 0
  b1 ← network_byte network 1
  b2 ← network_byte network 2
  b3 ← network_byte network 3
  ok (bit_or (bit_or (bit_or b0 (b1 * 2 ^ 8)) (b2 * 2 ^ 16)) (b3 * 2 ^ 24) % 2 ^ 32)

-- A shift of a `uint64_t` drops what leaves the word.
abbrev shift_left_64 : ℕ → ℕ → ℕ
shift_left_64 x k = x * 2 ^ k % 2 ^ 64

-- As in the source, `network[6]` is taken for the two upper bytes, and `network[7]` is not read.
unfoldable pub network_to_host_64 : Bytes → Outcome ℕ
network_to_host_64 network = do
  b0 ← network_byte network 0
  b1 ← network_byte network 1
  b2 ← network_byte network 2
  b3 ← network_byte network 3
  b4 ← network_byte network 4
  b5 ← network_byte network 5
  b6 ← network_byte network 6
  let low = bit_or (shift_left_64 b0 0) (shift_left_64 b1 8)
  let low = bit_or (bit_or low (shift_left_64 b2 16)) (shift_left_64 b3 24)
  let high = bit_or (bit_or low (shift_left_64 b4 32)) (shift_left_64 b5 40)
  ok (bit_or (bit_or high (shift_left_64 b6 48)) (shift_left_64 b6 56))
