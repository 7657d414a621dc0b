-- ===== src/TcpManager/Overruns.antt =====
-- What the two `read` of src/tcp_manager.cc do with packets that no node has built.
use group_share_filesystem.Base.{ℕ, ◌+◌, ◌^◌, ◌<◌, ◌≡◌, refl, Bytes, length, fault, over_read}
use group_share_filesystem.Archive.{Archive}
use group_share_filesystem.Protocol.Overruns.{
  claiming, parse_for_master-overlong, parse_for_slave-overlong, parse_for_master-short,
  parse_for_slave-short,
}
use group_share_filesystem.TcpManager.{read_from_slave, read_from_master}
use group_share_filesystem.TcpMessager.Receiving.{received}
use group_share_filesystem.UserFs.{UserFs}

-- Whatever the node is: a packet whose first length, below 2 ^ 48, is larger than the packet's rest with
-- one byte more makes the master read behind the packet if its type is 0, and a slave if its type is 2;
-- and a packet of fewer than seven bytes makes both read behind it.
pub read-overlong :
    (archive : Archive) (n : ℕ) (body short : Bytes) (address : Bytes) (handle : ℕ) (fs : UserFs)
    → n < 2 ^ 48
    → length body + 1 < n
    → length short < 7
    → (read_from_slave archive (received (claiming 0 n body)) address handle fs ≡ fault over_read)
      × (read_from_master archive (received (claiming 2 n body)) fs ≡ fault over_read)
      × (read_from_slave archive (received short) address handle fs ≡ fault over_read)
      × (read_from_master archive (received short) fs ≡ fault over_read)
unfolding read_from_slave read_from_master
read-overlong archive n body short address handle fs fits long few = (
  rw (parse_for_master-overlong n body fits long) refl,
  rw (parse_for_slave-overlong n body fits long) refl,
  rw (parse_for_master-short short few) refl,
  rw (parse_for_slave-short short few) refl,
)
