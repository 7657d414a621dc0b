-- ===== src/BytesOrder/Writing.antt =====
-- The functions of src/bytes_order.h that write to a pointer.
use group_share_filesystem.Base.{
  if◌then◌else◌, leb, Bool-cases, inl, inr, ℕ, zero, suc, ◌≤◌, ◌<◌, ◌≡◌, refl, Bytes, [], ◌∷◌, ◌++◌,
  length, drop, Outcome, ok, fault, bad_index, ◌>>=◌, arith,
}
use group_share_filesystem.BytesOrder.{
  byte_of, host_to_network_16, host_to_network_32, host_to_network_64,
}

-- `network[i] = b`, where the bytes that the pointer may write to are given.
unfoldable set_byte : ℕ → ℕ → Bytes → Outcome Bytes
set_byte i b [] = fault bad_index
set_byte zero b (x ∷ network) = ok (b ∷ network)
set_byte (suc i) b (x ∷ network) = set_byte i b network >>= λ rest. ok (x ∷ rest)

-- Assignments to the elements from `i` on, one after the other.
unfoldable assign : ℕ → Bytes → Bytes → Outcome Bytes
unfolding set_byte
assign i [] network = ok network
assign i (b ∷ bytes) network = set_byte i b network >>= assign (suc i) bytes

-- `host_to_network_16(dst, from)`, and with 32 and 64 bits.
pub write_network_16 : ℕ → Bytes → Outcome Bytes
unfolding assign
write_network_16 host = assign 0 (byte_of host 0 ∷ byte_of host 8 ∷ [])

pub write_network_32 : ℕ → Bytes → Outcome Bytes
unfolding assign
write_network_32 host =
    assign 0 (byte_of host 0 ∷ byte_of host 8 ∷ byte_of host 16 ∷ byte_of host 24 ∷ [])

pub write_network_64 : ℕ → Bytes → Outcome Bytes
unfolding assign
write_network_64 host = assign 0 (
    byte_of host 0
    ∷ byte_of host 8
    ∷ byte_of host 16
    ∷ byte_of host 24
    ∷ byte_of host 32
    ∷ byte_of host 40
    ∷ byte_of host 48
    ∷ byte_of host 56
    ∷ [])

behind_later :
    (x : ℕ) (m : Outcome Bytes) (f g : Bytes → Outcome Bytes)
    → ((rest : Bytes) → f (x ∷ rest) ≡ (g rest >>= λ r. ok (x ∷ r)))
    → ((m >>= λ rest. ok (x ∷ rest)) >>= f) ≡ ((m >>= g) >>= λ r. ok (x ∷ r))
behind_later x (ok rest) f g h = h rest
behind_later x (fault e) f g h = refl

-- What stands before the first assigned element stays.
assign_later :
    (x i : ℕ) (bytes network : Bytes)
    → assign (suc i) bytes (x ∷ network) ≡ (assign i bytes network >>= λ rest. ok (x ∷ rest))
unfolding assign
assign_later x i [] network = refl
assign_later x i (b ∷ bytes) network =
    behind_later x (set_byte i b network) (assign (suc (suc i)) bytes) (assign (suc i) bytes)
      (assign_later x (suc i) bytes)

assign-writes :
    (bytes network : Bytes)
    → length bytes ≤ length network
    → assign 0 bytes network ≡ ok (bytes ++ drop (length bytes) network)
unfolding assign set_byte
assign-writes [] network h = refl
assign-writes (b ∷ bytes) [] h = absurd (omega arith)
assign-writes (b ∷ bytes) (x ∷ network) h =
    rw (assign_later b 0 bytes network, assign-writes bytes network (omega arith)) refl

assign-faults :
    (bytes network : Bytes)
    → length network < length bytes
    → assign 0 bytes network ≡ fault bad_index
unfolding assign set_byte
assign-faults [] network h = absurd (omega arith)
assign-faults (b ∷ bytes) [] h = refl
assign-faults (b ∷ bytes) (x ∷ network) h =
    rw (assign_later b 0 bytes network, assign-faults bytes network (omega arith)) refl

-- These bytes in front of what was behind them, if there is room.
abbrev pub over : Bytes → Bytes → Outcome Bytes
over bytes network =
    if leb (length bytes) (length network)
    then ok (bytes ++ drop (length bytes) network)
    else fault bad_index

assign-over : (bytes network : Bytes) → assign 0 bytes network ≡ over bytes network
assign-over bytes network = elim (Bool-cases (leb (length bytes) (length network))) [
  | inl room ↦ rw room (assign-writes bytes network (ground (arith, room)))
  | inr none ↦ rw none (assign-faults bytes network (ground (arith, none)))
]

-- The functions that write a number of 16, 32 or 64 bits to a pointer put there what the functions
-- that return a string give, and leave the bytes behind it; they write behind the end if there is no
-- room for all bytes.
pub write_network_64-host_to_network_64 :
    (host : ℕ) (network : Bytes)
    → (write_network_16 host network ≡ over (host_to_network_16 host) network)
      × (write_network_32 host network ≡ over (host_to_network_32 host) network)
      × (write_network_64 host network ≡ over (host_to_network_64 host) network)
unfolding write_network_16 write_network_32 write_network_64 host_to_network_16 host_to_network_32
    host_to_network_64
write_network_64-host_to_network_64 host network = (
  assign-over (host_to_network_16 host) network,
  assign-over (host_to_network_32 host) network,
  assign-over (host_to_network_64 host) network,
)
