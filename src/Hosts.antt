-- ===== src/Hosts.antt =====
-- Class Hosts of src/host.h: the hosts of the group, in a vector that is only appended to or replaced.
pub mod Numbering
use group_share_filesystem.Base.{
  ℕ, Bytes, List, [], ◌∷◌, ◌++◌, length, get_elem?, Outcome, or_fault, bad_index,
}

pub record Host : Type 0 where
  pub id : ℕ
  pub address : Bytes
  pub working_dir : Bytes
  pub tcp_port : ℕ
  pub ssh_port : ℕ

pub record Hosts : Type 0 where
  pub hosts : List Host

-- `Hosts()`
abbrev pub no_hosts : Hosts
no_hosts = record { hosts = [] }

abbrev pub size : Hosts → ℕ
size h = length h.hosts

unfoldable pub push : Hosts → Host → Hosts
push h host = record { hosts = h.hosts ++ host ∷ [] }

-- `operator[]`
unfoldable pub host_at : Hosts → ℕ → Outcome Host
host_at h n = or_fault bad_index (get_elem? h.hosts n)
