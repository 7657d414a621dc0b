-- ===== src/Group/Quiescence.antt =====
-- A group comes to rest: when nobody comes or goes, the messages that are on their way run out.
use group_share_filesystem.Base.{ℕ, ◌≡◌, ◌⊎◌, List, [], map}
use group_share_filesystem.Archive.{Archive, IsLossless}
use group_share_filesystem.TcpManager.Replication.{SeesSame}
use group_share_filesystem.UserFs.{UserFs}
use group_share_filesystem.Group.{Peer, Group}

-- A connection with nothing on its way to the slave, which shows what the master shows, unless it has
-- not been taken in yet.
abbrev pub IsAtRest : UserFs → Peer → Type 0
IsAtRest master p = (p.inbox ≡ []) × ((p.slave_id ≡ 0) ⊎ SeesSame p.node master)

-- The ids in the handles of the connections.
abbrev pub ids : List Peer → List ℕ
ids peers = map (λ p. p.slave_id) peers

module _ (archive : Archive) (lossless : IsLossless archive) (master : UserFs) where
  abbrev with_peers : List Peer → Group
  with_peers peers = record { master = master; peers = peers }

  abbrev at_end : Peer → UserFs → Peer
  at_end p fs = record p { node = fs; inbox = [] }
