-- ===== src/Protocol.antt =====
-- The messages of the group: the builders in src/user_fs.cc and the parsers in src/tcp_manager.cc.
-- A message starts with its type in eight bytes; each byte sequence in it follows its length.
pub mod RoundTrip
pub mod Overruns
use group_share_filesystem.Base.{
  ℕ, leb, if◌then◌else◌, ◌==◌, Bytes, [], ◌∷◌, ◌++◌, length, drop, Outcome, ok, fault, over_read,
  ◌>>=◌,
}
use group_share_filesystem.BytesOrder.{host_to_network_64, network_to_host_64}
use group_share_filesystem.Packet.{string_of}

-- A byte sequence behind its length.
abbrev pub section_of : Bytes → Bytes
section_of seq = host_to_network_64 (length seq) ++ seq

-- Type 0: a slave introduces itself.
unfoldable pub hello_message : Bytes → Bytes → Bytes
hello_message dir_tree_seq host_seq =
    host_to_network_64 0x00 ++ (section_of dir_tree_seq ++ section_of host_seq)

-- Type 1: the master recognizes a slave.
unfoldable pub recognition_message : ℕ → Bytes → Bytes → Bytes
recognition_message slave_id dir_tree_seq hosts_seq =
    host_to_network_64 0x01
    ++ (host_to_network_64 slave_id ++ (section_of dir_tree_seq ++ section_of hosts_seq))

-- Type 2: the master sends its tree and its hosts to all.
unfoldable pub update_message : Bytes → Bytes → Bytes
update_message dir_tree_seq hosts_seq =
    host_to_network_64 0x02 ++ (section_of dir_tree_seq ++ section_of hosts_seq)

-- `data += n`: a pointer may go to the end of the array, and no further.
abbrev advance : ℕ → Bytes → Outcome Bytes
advance n pointer = if leb n (length pointer) then ok (drop n pointer) else fault over_read

-- `network_to_host_64(data); data += sizeof(uint64_t);`
unfoldable pub take_number : Bytes → Outcome (ℕ × Bytes)
take_number pointer = do n ← network_to_host_64 pointer; rest ← advance 8 pointer; ok (n, rest)

-- `std::string(data, n); data += n;`
unfoldable pub take_string : ℕ → Bytes → Outcome (Bytes × Bytes)
take_string n pointer = do seq ← string_of pointer n; rest ← advance n pointer; ok (seq, rest)

-- A length and a sequence, twice.
unfoldable pub take_sections : Bytes → Outcome (Bytes × Bytes)
take_sections pointer = do
  (dir_tree_seq_len, pointer) ← take_number pointer
  (dir_tree_seq, pointer) ← take_string dir_tree_seq_len pointer
  (hosts_seq_len, pointer) ← take_number pointer
  (hosts_seq, pointer) ← take_string hosts_seq_len pointer
  ok (dir_tree_seq, hosts_seq)

-- What a message makes the owner do; `ignored` stands for a type that the `switch` has no case for.
pub data MasterCall : Type 0 where
  new_connection : Bytes → Bytes → MasterCall
  ignored : MasterCall

pub data SlaveCall : Type 0 where
  slave_recognized : ℕ → Bytes → Bytes → SlaveCall
  update_info : Bytes → Bytes → SlaveCall
  ignored : SlaveCall

parse_hello : Bytes → Outcome MasterCall
parse_hello content = do
  (dir_tree_seq, hosts_seq) ← take_sections content
  ok (new_connection dir_tree_seq hosts_seq)

-- The parser of the master, `TCPManager::read(packet, handle)`.
unfoldable pub parse_for_master : Bytes → Outcome MasterCall
unfolding parse_hello
parse_for_master pointer = do
  (protocol_type, content) ← take_number pointer
  if protocol_type == 0 then parse_hello content else ok MasterCall.ignored

parse_recognition : Bytes → Outcome SlaveCall
parse_recognition content = do
  (slave_id, content) ← take_number content
  (dir_tree_seq, hosts_seq) ← take_sections content
  ok (slave_recognized slave_id dir_tree_seq hosts_seq)

parse_update : Bytes → Outcome SlaveCall
parse_update content = do
  (dir_tree_seq, hosts_seq) ← take_sections content
  ok (update_info dir_tree_seq hosts_seq)

-- The parser of a slave, `TCPManager::read(packet)`.
unfoldable pub parse_for_slave : Bytes → Outcome SlaveCall
unfolding parse_recognition parse_update
parse_for_slave pointer = do
  (protocol_type, content) ← take_number pointer
  if protocol_type == 1
      then parse_recognition content
      else if protocol_type == 2
      then parse_update content
      else ok SlaveCall.ignored
