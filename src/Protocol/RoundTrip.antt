-- ===== src/Protocol/RoundTrip.antt =====
-- Every message that src/user_fs.cc builds is parsed by src/tcp_manager.cc into the call that it is
-- meant for, with the same arguments.
use group_share_filesystem.Base.{
  ℕ, ◌^◌, ◌<◌, ◌≡◌, Bytes, ◌++◌, length, ok, length-append, drop-length-append, append_assoc, arith,
}
use group_share_filesystem.BytesOrder.{host_to_network_64}
use group_share_filesystem.BytesOrder.RoundTrip.{
  host_to_network_64_bytes, network_to_host_64-host_to_network_64,
}
use group_share_filesystem.Packet.Framing.{string_of-append}
use group_share_filesystem.Protocol.{
  section_of, hello_message, recognition_message, update_message, take_number, take_string,
  take_sections, new_connection, slave_recognized, update_info, parse_for_master, parse_for_slave,
}

pub take_number_lem :
    (v : ℕ) (rest : Bytes) → v < 2 ^ 48 → take_number (host_to_network_64 v ++ rest) ≡ ok (v, rest)
unfolding take_number
take_number_lem v rest h =
    rw (network_to_host_64-host_to_network_64 v rest h, host_to_network_64_bytes v) (ground arith)

take_string_lem : (seq rest : Bytes) → take_string (length seq) (seq ++ rest) ≡ ok (seq, rest)
unfolding take_string
take_string_lem seq rest =
    rw (string_of-append seq rest)
      (ground (arith, length-append seq rest, drop-length-append seq rest))

-- Two sections are read back, whatever follows them.
take_sections_lem :
    (dir_tree_seq hosts_seq rest : Bytes)
    → length dir_tree_seq < 2 ^ 48
    → length hosts_seq < 2 ^ 48
    → take_sections ((section_of dir_tree_seq ++ section_of hosts_seq) ++ rest)
      ≡ ok (dir_tree_seq, hosts_seq)
unfolding take_sections
take_sections_lem d s rest hd hs = simp append_assoc (
    rw (
      take_number_lem (length d) (d ++ (host_to_network_64 (length s) ++ (s ++ rest))) hd,
      take_string_lem d (host_to_network_64 (length s) ++ (s ++ rest)),
      take_number_lem (length s) (s ++ rest) hs,
      take_string_lem s rest,
    ))

-- A slave's introduction, whatever follows it, reaches `newConnection` of the master with the same
-- tree and host, if both are shorter than 2 ^ 48 bytes.
pub parse_for_master-hello_message :
    (dir_tree_seq host_seq rest : Bytes)
    → length dir_tree_seq < 2 ^ 48
    → length host_seq < 2 ^ 48
    → parse_for_master (hello_message dir_tree_seq host_seq ++ rest)
      ≡ ok (new_connection dir_tree_seq host_seq)
unfolding parse_for_master hello_message
parse_for_master-hello_message d s rest hd hs = rw (append_assoc (host_to_network_64 0)) (
    rw (
      take_number_lem 0 ((section_of d ++ section_of s) ++ rest) (omega arith),
      take_sections_lem d s rest hd hs,
    ))

-- A recognition, whatever follows it, reaches `slaveRecognized` of the slave with the same id,
-- tree and hosts, if the id is below 2 ^ 48 and the tree and hosts are shorter than 2 ^ 48 bytes.
pub parse_for_slave-recognition_message :
    (slave_id : ℕ) (dir_tree_seq hosts_seq rest : Bytes)
    → slave_id < 2 ^ 48
    → length dir_tree_seq < 2 ^ 48
    → length hosts_seq < 2 ^ 48
    → parse_for_slave (recognition_message slave_id dir_tree_seq hosts_seq ++ rest)
      ≡ ok (slave_recognized slave_id dir_tree_seq hosts_seq)
unfolding parse_for_slave recognition_message
parse_for_slave-recognition_message n d s rest hn hd hs =
    rw (append_assoc (host_to_network_64 1), append_assoc (host_to_network_64 n))
      (rw (
        take_number_lem 1 (host_to_network_64 n ++ ((section_of d ++ section_of s) ++ rest))
            (omega arith),
        take_number_lem n ((section_of d ++ section_of s) ++ rest) hn,
        take_sections_lem d s rest hd hs,
      ))

-- An update, whatever follows it, reaches `updateInfo` of the slave with the same tree and hosts,
-- if both are shorter than 2 ^ 48 bytes.
pub parse_for_slave-update_message :
    (dir_tree_seq hosts_seq rest : Bytes)
    → length dir_tree_seq < 2 ^ 48
    → length hosts_seq < 2 ^ 48
    → parse_for_slave (update_message dir_tree_seq hosts_seq ++ rest)
      ≡ ok (update_info dir_tree_seq hosts_seq)
unfolding parse_for_slave update_message
parse_for_slave-update_message d s rest hd hs = rw (append_assoc (host_to_network_64 2)) (
    rw (
      take_number_lem 2 ((section_of d ++ section_of s) ++ rest) (omega arith),
      take_sections_lem d s rest hd hs,
    ))
