-- ===== src/Protocol/Overruns.antt =====
-- The parsers of src/tcp_manager.cc on packets that are too short for what they say.
use group_share_filesystem.Base.{
  ℕ, ◌+◌, ◌^◌, ◌<◌, ◌≡◌, refl, ap, ◌∙◌, leb, false, Bytes, [], ◌∷◌, ◌++◌, append_assoc, length,
  length-append, fault, over_read, arith,
}
use group_share_filesystem.BytesOrder.{host_to_network_64, network_to_host_64}
use group_share_filesystem.Packet.{readable, string_of}
use group_share_filesystem.Protocol.{
  take_number, take_string, take_sections, parse_for_master, parse_for_slave,
}
use group_share_filesystem.Protocol.RoundTrip.{take_number_lem}
use group_share_filesystem.TcpMessager.Receiving.{received}

-- Fewer bytes than a number has.
take_number-short : (bytes : Bytes) → length bytes < 8 → take_number bytes ≡ fault over_read
unfolding take_number network_to_host_64
take_number-short [] h = refl
take_number-short (b0 ∷ []) h = refl
take_number-short (b0 ∷ b1 ∷ []) h = refl
take_number-short (b0 ∷ b1 ∷ b2 ∷ []) h = refl
take_number-short (b0 ∷ b1 ∷ b2 ∷ b3 ∷ []) h = refl
take_number-short (b0 ∷ b1 ∷ b2 ∷ b3 ∷ b4 ∷ []) h = refl
take_number-short (b0 ∷ b1 ∷ b2 ∷ b3 ∷ b4 ∷ b5 ∷ []) h = refl
take_number-short (b0 ∷ b1 ∷ b2 ∷ b3 ∷ b4 ∷ b5 ∷ b6 ∷ rest) h = ground (arith, h)

-- A length that is larger than what follows it.
take_sections-overlong :
    (n : ℕ) (body : Bytes)
    → n < 2 ^ 48
    → length body < n
    → take_sections (host_to_network_64 n ++ body) ≡ fault over_read
unfolding take_sections take_string string_of
take_sections-overlong n body fits long =
    let behind : leb n (length body) ≡ false = ground (arith, long) in
    rw (take_number_lem n body fits, behind) refl

-- A packet of this type whose first length is `n`.
abbrev pub claiming : ℕ → ℕ → Bytes → Bytes
claiming type n body = host_to_network_64 type ++ (host_to_network_64 n ++ body)

as_read :
    (type n : ℕ) (body : Bytes)
    → readable (received (claiming type n body))
      ≡ host_to_network_64 type ++ (host_to_network_64 n ++ (body ++ 0 ∷ []))
as_read type n body =
    append_assoc (host_to_network_64 type) (host_to_network_64 n ++ body) (0 ∷ [])
    ∙ ap (◌++◌ (host_to_network_64 type)) (append_assoc (host_to_network_64 n) body (0 ∷ []))

module _ (n : ℕ) (body : Bytes) (fits : n < 2 ^ 48) (long : length body + 1 < n) where
  overlong : take_sections (host_to_network_64 n ++ (body ++ 0 ∷ [])) ≡ fault over_read
  overlong =
      take_sections-overlong n (body ++ 0 ∷ []) fits
        (omega (arith, length-append body (0 ∷ []), long))

  pub parse_for_master-overlong :
      parse_for_master (readable (received (claiming 0 n body))) ≡ fault over_read
  unfolding parse_for_master
  parse_for_master-overlong =
      rw
        (
          as_read 0 n body,
          take_number_lem 0 (host_to_network_64 n ++ (body ++ 0 ∷ [])) (omega arith),
          overlong,
        )
        refl

  pub parse_for_slave-overlong :
      parse_for_slave (readable (received (claiming 2 n body))) ≡ fault over_read
  unfolding parse_for_slave
  parse_for_slave-overlong =
      rw
        (
          as_read 2 n body,
          take_number_lem 2 (host_to_network_64 n ++ (body ++ 0 ∷ [])) (omega arith),
          overlong,
        )
        refl

module _ (message : Bytes) (short : length message < 7) where
  too_short : take_number (readable (received message)) ≡ fault over_read
  too_short =
      take_number-short (message ++ 0 ∷ []) (omega (arith, length-append message (0 ∷ []), short))

  pub parse_for_master-short : parse_for_master (readable (received message)) ≡ fault over_read
  unfolding parse_for_master
  parse_for_master-short = rw too_short refl

  pub parse_for_slave-short : parse_for_slave (readable (received message)) ≡ fault over_read
  unfolding parse_for_slave
  parse_for_slave-short = rw too_short refl
