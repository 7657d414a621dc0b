-- ===== src/BytesOrder/RoundTrip.antt =====
-- Encoding and decoding of src/bytes_order.h, for 16, 32 and 64 bits.
use native.Mathlib.Nat.{mod-eq_of_lt, mul-one}
use group_share_filesystem.Base.{
  ℕ, ◌+◌, ◌*◌, ◌/◌, ◌%◌, ◌^◌, ◌<◌, ◌≡◌, ◌↔◌, ◌∙◌, ap, refl, Bytes, [], ◌∷◌, ◌++◌, ok, arith,
  AreBytes, length, ok-injective,
}
use group_share_filesystem.Base.Bits.{bit_and_byte, bit_or_disjoint}
use group_share_filesystem.BytesOrder.{
  host_to_network_16, host_to_network_32, host_to_network_64, network_to_host_16,
  network_to_host_32, network_to_host_64,
}

-- The bytes of a number, by division.
abbrev byte_at : ℕ → ℕ → ℕ
byte_at v k = v / 2 ^ k % 256

pub host_to_network_64_bytes :
    (v : ℕ)
    → host_to_network_64 v
      ≡ byte_at v 0
        ∷ byte_at v 8
        ∷ byte_at v 16
        ∷ byte_at v 24
        ∷ byte_at v 32
        ∷ byte_at v 40
        ∷ byte_at v 48
        ∷ byte_at v 56
        ∷ []
unfolding host_to_network_64
host_to_network_64_bytes v = simp bit_and_byte

-- What the decoders compute from bytes in range.
network_to_host_16_bytes :
    (b0 b1 : ℕ) (rest : Bytes)
    → b0 < 256
    → b1 < 256
    → network_to_host_16 (b0 ∷ b1 ∷ rest) ≡ ok (b0 + b1 * 2 ^ 8)
unfolding network_to_host_16
network_to_host_16_bytes b0 b1 rest h0 h1 =
    rw (bit_or_disjoint 8 b0 b1 (omega arith)) (ap ok (omega arith))

network_to_host_32_bytes :
    (b0 b1 b2 b3 : ℕ) (rest : Bytes)
    → AreBytes (b0 ∷ b1 ∷ b2 ∷ b3 ∷ [])
    → network_to_host_32 (b0 ∷ b1 ∷ b2 ∷ b3 ∷ rest)
      ≡ ok (b0 + b1 * 2 ^ 8 + b2 * 2 ^ 16 + b3 * 2 ^ 24)
unfolding network_to_host_32
network_to_host_32_bytes b0 b1 b2 b3 rest h =
    rw
      (
        bit_or_disjoint 8 b0 b1 (omega arith),
        bit_or_disjoint 16 (b0 + b1 * 2 ^ 8) b2 (omega arith),
        bit_or_disjoint 24 (b0 + b1 * 2 ^ 8 + b2 * 2 ^ 16) b3 (omega arith),
      )
      (ap ok (omega arith))

-- The seven bytes that are read, the last one twice.
abbrev weigh : ℕ → ℕ → ℕ → ℕ → ℕ → ℕ → ℕ → ℕ
weigh b0 b1 b2 b3 b4 b5 b6 =
    b0
    + b1 * 2 ^ 8
    + b2 * 2 ^ 16
    + b3 * 2 ^ 24
    + b4 * 2 ^ 32
    + b5 * 2 ^ 40
    + b6 * 2 ^ 48
    + b6 * 2 ^ 56

shift_byte : (b k : ℕ) → b < 256 → b * 2 ^ k < 2 ^ 64 → b * 2 ^ k % 2 ^ 64 ≡ b * 2 ^ k
shift_byte b k h fits = mod-eq_of_lt fits

network_to_host_64_bytes :
    (b0 b1 b2 b3 b4 b5 b6 : ℕ) (rest : Bytes)
    → AreBytes (b0 ∷ b1 ∷ b2 ∷ b3 ∷ b4 ∷ b5 ∷ b6 ∷ [])
    → network_to_host_64 (b0 ∷ b1 ∷ b2 ∷ b3 ∷ b4 ∷ b5 ∷ b6 ∷ rest) ≡ ok (weigh b0 b1 b2 b3 b4 b5 b6)
unfolding network_to_host_64
network_to_host_64_bytes b0 b1 b2 b3 b4 b5 b6 rest h =
    let s1 = b0 + b1 * 2 ^ 8 in
    let s2 = s1 + b2 * 2 ^ 16 in
    let s3 = s2 + b3 * 2 ^ 24 in
    let s4 = s3 + b4 * 2 ^ 32 in
    let s5 = s4 + b5 * 2 ^ 40 in
    let s6 = s5 + b6 * 2 ^ 48 in
    simp
      (
        shift_byte b0 0 h.0 (omega arith),
        shift_byte b1 8 h.1.0 (omega arith),
        shift_byte b2 16 h.1.1.0 (omega arith),
        shift_byte b3 24 h.1.1.1.0 (omega arith),
        shift_byte b4 32 h.1.1.1.1.0 (omega arith),
        shift_byte b5 40 h.1.1.1.1.1.0 (omega arith),
        shift_byte b6 48 h.1.1.1.1.1.1.0 (omega arith),
        shift_byte b6 56 h.1.1.1.1.1.1.0 (omega arith),
      )
      (rw (
        mul-one b0,
        bit_or_disjoint 8 b0 b1 (omega arith),
        bit_or_disjoint 16 s1 b2 (omega arith),
        bit_or_disjoint 24 s2 b3 (omega arith),
        bit_or_disjoint 32 s3 b4 (omega arith),
        bit_or_disjoint 40 s4 b5 (omega arith),
        bit_or_disjoint 48 s5 b6 (omega arith),
        bit_or_disjoint 56 s6 b6 (omega arith),
      ))

-- What a 16-bit number was encoded to, whatever follows it, is decoded to that number.
network_to_host_16-host_to_network_16 :
    (v : ℕ) (rest : Bytes) → v < 2 ^ 16 → network_to_host_16 (host_to_network_16 v ++ rest) ≡ ok v
unfolding host_to_network_16
network_to_host_16-host_to_network_16 v rest h = simp bit_and_byte (
    network_to_host_16_bytes (byte_at v 0) (byte_at v 8) rest (omega arith) (omega arith)
    ∙ ap ok (omega arith))

-- What a 32-bit number was encoded to, whatever follows it, is decoded to that number.
network_to_host_32-host_to_network_32 :
    (v : ℕ) (rest : Bytes) → v < 2 ^ 32 → network_to_host_32 (host_to_network_32 v ++ rest) ≡ ok v
unfolding host_to_network_32
network_to_host_32-host_to_network_32 v rest h = simp bit_and_byte (
    network_to_host_32_bytes (byte_at v 0) (byte_at v 8) (byte_at v 16) (byte_at v 24) rest
      (omega arith)
    ∙ ap ok (omega arith))

-- What the 64-bit decoder makes of an encoded number: the two upper bytes become the seventh.
abbrev pub misread : ℕ → ℕ
misread v = v % 2 ^ 56 + byte_at v 48 * 2 ^ 56

network_to_host_64-misread :
    (v : ℕ) (rest : Bytes) → network_to_host_64 (host_to_network_64 v ++ rest) ≡ ok (misread v)
network_to_host_64-misread v rest = rw (host_to_network_64_bytes v) (
    network_to_host_64_bytes (byte_at v 0) (byte_at v 8) (byte_at v 16) (byte_at v 24)
      (byte_at v 32) (byte_at v 40) (byte_at v 48) (byte_at v 56 ∷ rest) (omega arith)
    ∙ ap ok (omega arith))

-- A 64-bit number survives encoding and decoding, whatever follows it, exactly when its two upper
-- bytes are equal.
pub network_to_host_64-host_to_network_64_iff :
    (v : ℕ) (rest : Bytes)
    → v < 2 ^ 64
    → (network_to_host_64 (host_to_network_64 v ++ rest) ≡ ok v) ↔ (byte_at v 56 ≡ byte_at v 48)
network_to_host_64-host_to_network_64_iff v rest h =
    rw (network_to_host_64-misread v rest)
      (λ e. omega (arith, ok-injective e), λ e. ap ok (omega arith))

-- Every number below 2 ^ 48, whose two upper bytes are zero, survives encoding and decoding in 64
-- bits.
pub network_to_host_64-host_to_network_64 :
    (v : ℕ) (rest : Bytes) → v < 2 ^ 48 → network_to_host_64 (host_to_network_64 v ++ rest) ≡ ok v
network_to_host_64-host_to_network_64 v rest h =
    network_to_host_64-misread v rest ∙ ap ok (omega arith)

-- Eight bytes can be read.
pub network_to_host_64-total :
    (bytes : Bytes) → length bytes ≡ 8 → (n : ℕ) × (network_to_host_64 bytes ≡ ok n)
unfolding network_to_host_64
network_to_host_64-total [] e = absurd (omega (arith, e))
network_to_host_64-total (b0 ∷ []) e = absurd (omega (arith, e))
network_to_host_64-total (b0 ∷ b1 ∷ []) e = absurd (omega (arith, e))
network_to_host_64-total (b0 ∷ b1 ∷ b2 ∷ []) e = absurd (omega (arith, e))
network_to_host_64-total (b0 ∷ b1 ∷ b2 ∷ b3 ∷ []) e = absurd (omega (arith, e))
network_to_host_64-total (b0 ∷ b1 ∷ b2 ∷ b3 ∷ b4 ∷ []) e = absurd (omega (arith, e))
network_to_host_64-total (b0 ∷ b1 ∷ b2 ∷ b3 ∷ b4 ∷ b5 ∷ []) e = absurd (omega (arith, e))
network_to_host_64-total (b0 ∷ b1 ∷ b2 ∷ b3 ∷ b4 ∷ b5 ∷ b6 ∷ rest) e = (_, refl)
