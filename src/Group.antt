-- ===== src/Group.antt =====
-- The nodes together: the master of src/user_fs.cc with the connections that src/tcp_messager.cc keeps,
-- and the slave at the other end of each. A connection carries messages in both directions in their
-- order; nodes take turns in any order. The steps are the handlers of UserFs and TcpManager.
pub mod Peers
pub mod Following
pub mod Handling
pub mod Invariant
pub mod Keeping
pub mod Welcoming
pub mod Dismissing
pub mod Consistency
pub mod Quiescence
pub mod Wires
pub mod Reception
pub mod Answers
pub mod Delivery
pub mod Ownership
use group_share_filesystem.Base.{
  ℕ, ◌+◌, ◌^◌, ◌<◌, ◌≡◌, Bytes, List, [], ◌∷◌, ◌++◌, map, length, Option, none, some, Outcome, ok,
  ◌>>=◌,
}
use group_share_filesystem.Archive.{Archive}
use group_share_filesystem.TcpMessager.Receiving.{received}
use group_share_filesystem.TcpManager.{read_from_slave, read_from_master}
use group_share_filesystem.UserFs.{
  UserFs, Effect, write_all, write_to_peer, close_peer, Reply, disconnect_slave,
}
use group_share_filesystem.UserFs.Start.{
  Surroundings, Started, serving, waiting, start_master, start_slave,
}

-- A connection of the master, with the id in its handle, the slave at the other end, and the messages
-- that are on their way to the master and to the slave.
pub record Peer : Type 0 where
  pub slave_id : ℕ
  pub node : UserFs
  pub outbox : List Bytes
  pub inbox : List Bytes

pub record Group : Type 0 where
  pub master : UserFs
  pub peers : List Peer

-- A message behind those that are on their way.
abbrev pub post : Bytes → Peer → Peer
post message p = record p { inbox = p.inbox ++ message ∷ [] }

-- The connections, with the one that a handler was called for; it may be closed.
pub record Focus : Type 0 where
  pub before : List Peer
  pub here : Option Peer
  pub behind : List Peer

abbrev pub at_focus : (Peer → Peer) → Option Peer → Option Peer
at_focus f none = none
at_focus f (some p) = some (f p)

abbrev pub peers_of : Focus → List Peer
peers_of f = elim f.here [ none ↦ f.before ++ f.behind | some p ↦ f.before ++ p ∷ f.behind ]

-- What an effect of the master's handler comes to: `write` reaches every open connection, `writeTo` and
-- `close` the one of the handle.
abbrev pub carry : Effect → Focus → Focus
carry (write_all message) f = record {
  before = map (post message) f.before;
  here = at_focus (post message) f.here;
  behind = map (post message) f.behind;
}
carry (write_to_peer message) f = record f { here = at_focus (post message) f.here }
carry close_peer f = record f { here = none }

abbrev pub carry_all : List Effect → Focus → Focus
carry_all [] f = f
carry_all (effect ∷ effects) f = carry_all effects (carry effect f)

-- The group after a handler of the master, which was called for a connection that is now `here`.
abbrev pub after_reply : List Peer → Option Peer → List Peer → Reply → Group
after_reply before here behind r = record {
  master = r.fs;
  peers = peers_of (carry_all r.effects (record { before = before; here = here; behind = behind }));
}

module _ (archive : Archive) where
  -- The saved tree and hosts, and the next id, fit the 48 bits that a length or an id has on the wire.
  pub record Fits (fs : UserFs) : Type 0 where
    pub tree_fits : length (archive.save_tree fs.dir_tree) < 2 ^ 48
    pub hosts_fit : length (archive.save_hosts fs.hosts) < 2 ^ 48
    pub id_fits : fs.max_host_id + 1 < 2 ^ 48

  -- A slave that `main` has started, connected, with its introduction on the way, when no message has come
  -- before it was written. The introduction is shorter than 2 ^ 48 bytes, which the code does not check.
  pub data IsNewcomer (p : Peer) : Type 0 where
    newcomer :
        (os : Surroundings) (addr : Bytes) (tcp_port ssh_port : ℕ) (message : Bytes)
        → start_slave archive os addr tcp_port ssh_port
          ≡ ok (waiting p.node (write_all message ∷ []))
        → length message < 2 ^ 48
        → p.slave_id ≡ 0
        → p.outbox ≡ message ∷ []
        → p.inbox ≡ []
        → IsNewcomer p

  -- A slave connects; the master hears a message; a slave reads one; a connection breaks. A slave whose
  -- connection breaks is no peer from then on, so what it does by itself then is no step of the group.
  pub data Step (g h : Group) : Type 0 where
    joins : (p : Peer) → IsNewcomer p → h ≡ record g { peers = p ∷ g.peers } → Step g h
    hears :
        (before behind : List Peer) (p : Peer) (address message : Bytes) (rest : List Bytes)
        (r : Reply)
        → g.peers ≡ before ++ p ∷ behind
        → p.outbox ≡ message ∷ rest
        → read_from_slave archive (received message) address p.slave_id g.master ≡ ok r
        → h ≡ after_reply before (some (record p { slave_id = r.slave_id; outbox = rest })) behind r
        → Step g h
    reads :
        (before behind : List Peer) (p : Peer) (message : Bytes) (rest : List Bytes) (fs : UserFs)
        → g.peers ≡ before ++ p ∷ behind
        → p.inbox ≡ message ∷ rest
        → read_from_master archive (received message) p.node ≡ ok fs
        → h ≡ record g { peers = before ++ record p { node = fs; inbox = rest } ∷ behind }
        → Step g h
    leaves :
        (before behind : List Peer) (p : Peer) (r : Reply)
        → g.peers ≡ before ++ p ∷ behind
        → disconnect_slave archive p.slave_id g.master ≡ ok r
        → h ≡ after_reply before none behind r
        → Step g h

  -- The groups that a master which `main` has started comes to, as long as what it shows fits the wire,
  -- which the code does not check.
  pub data Reach : Group → Type 0 where
    start :
        (os : Surroundings) (addr : Bytes) (tcp_port ssh_port : ℕ) {fs : UserFs}
        → start_master archive os addr tcp_port ssh_port ≡ ok (serving fs)
        → Fits fs
        → Reach (record { master = fs; peers = [] })
    later : {g h : Group} → Reach g → Step g h → Fits h.master → Reach h

  -- A slave reads all that is on its way to it.
  unfoldable pub read_all : List Bytes → UserFs → Outcome UserFs
  read_all [] fs = ok fs
  read_all (message ∷ messages) fs =
      read_from_master archive (received message) fs >>= read_all messages
