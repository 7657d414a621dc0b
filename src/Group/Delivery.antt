-- ===== src/Group/Delivery.antt =====
-- From the calls that a master makes of its messager to what a slave makes of the bytes: both messagers of
-- src/tcp_messager.cc and the callbacks of a slave.
use group_share_filesystem.Base.{
  ℕ, ◌≡◌, refl, ap, subst, ◌∙◌, Bytes, List, [], ◌∷◌, ◌++◌, map, some, ok,
}
use group_share_filesystem.Archive.{Archive}
use group_share_filesystem.Packet.{Packet}
use group_share_filesystem.TcpManager.Outages.{call_back}
use group_share_filesystem.TcpMessager.Master.{
  MasterMessager, new_master_messager, run as master_run, Event as MasterEvent,
}
use group_share_filesystem.TcpMessager.Master.InOrder.{begun-run}
use group_share_filesystem.TcpMessager.Master.Ordering.{line}
use group_share_filesystem.TcpMessager.Master.Ordering.{begun, posted}
use group_share_filesystem.TcpMessager.Receiving.{AreShort, packet_of, wire_all}
use group_share_filesystem.TcpMessager.Slave.{Action, header}
use group_share_filesystem.TcpMessager.Slave.Events.{Line, run}
use group_share_filesystem.UserFs.{UserFs}
use group_share_filesystem.Group.{read_all}
use group_share_filesystem.Group.Reception.{arrivals, bytes_read, read_all-run}

-- Packets in front of others, when all are those of some messages.
packet_of-append :
    (packets others : List Packet) (messages : List Bytes)
    → packets ++ others ≡ map packet_of messages
    → (sent : List Bytes) × (kept : List Bytes) × (messages ≡ sent ++ kept)
      × (packets ≡ map packet_of sent)
      × (others ≡ map packet_of kept)
packet_of-append [] others messages e = ([], messages, refl, refl, e)
packet_of-append (p ∷ packets) others [] e = absurd (cc e)
packet_of-append (p ∷ packets) others (message ∷ messages) e =
    let (sent, kept, all, same, rest) = packet_of-append packets others messages (cc e) in
    (message ∷ sent, kept, ap (◌∷◌ message) all, cc, rest)

AreShort-append : (sent kept : List Bytes) → AreShort (sent ++ kept) → AreShort sent
AreShort-append [] kept h = tt
AreShort-append (message ∷ sent) kept h = (h.0, AreShort-append sent kept h.1)

-- Take any row of events of the master's messager from its start in which none faults, a connection that
-- is open in the end, and the packets of some messages, each shorter than 2 ^ 48 bytes, as what was
-- posted to it. The packets whose writing to it has begun are those of the first of these messages, in
-- their order; and if the messager of the slave waits for a length, then its reads of all their bytes
-- fault nowhere, and its callbacks do to the node what a slave of the group does by reading these messages.
pub begun-delivers :
    (archive : Archive) (h : ℕ) (events : List MasterEvent) (messages : List Bytes)
    {m : MasterMessager} {actions : List (ℕ × Action)} (waiting : List Packet) (l : Line)
    (fs : UserFs)
    → master_run events new_master_messager ≡ ok (m, actions)
    → line h m.connections ≡ some waiting
    → posted h 0 events ≡ map packet_of messages
    → AreShort messages
    → l.messager.reading ≡ header
    → (sent : List Bytes) × (kept : List Bytes) × (l' : Line) × (calls : List Action) × (messages
        ≡ sent ++ kept)
      × (waiting ≡ map packet_of kept)
      × (wire_all (begun h actions) ≡ ok (bytes_read (arrivals sent)))
      × (run (arrivals sent) l ≡ ok (l', calls))
      × (call_back archive calls fs ≡ read_all archive sent fs)
begun-delivers archive h events messages {m} {actions} waiting l fs runs open_line are_posted short
      waits =
    let (sent, kept, all, written, queued) =
      packet_of-append (begun h actions) waiting messages
        (begun-run h events waiting runs open_line ∙ are_posted) in
    let (l', calls, bytes, reads, _, same) =
      read_all-run archive sent l fs (AreShort-append sent kept (subst AreShort all short)) waits in
    (sent, kept, l', calls, all, queued, ap wire_all written ∙ bytes, reads, same)
