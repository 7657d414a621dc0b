-- ===== src/TcpMessager/Sending/Ends.antt =====
-- How the sending of TCPSlaveMessager in src/tcp_messager.cc ends: with all packets sent, or with a write
-- that has failed.
use group_share_filesystem.Base.{
  ◌≡◌, refl, subst, ◌∙◌, true, false, ◌⊎◌, inl, inr, Bool-cases, List, [], ◌∷◌, ◌++◌, append_assoc,
  append-nil, Option, none, some, ok, arith,
}
use group_share_filesystem.Packet.{Packet}
use group_share_filesystem.TcpMessager.Queue.{dequeue, in_progress}
use group_share_filesystem.TcpMessager.Slave.{SlaveMessager, new_slave_messager, written}
use group_share_filesystem.TcpMessager.Sending.{
  Sender, SendEvent, write_ends, idle_sender, begin_writes, send_step, send_run, posts, front,
  waiting,
}
use group_share_filesystem.TcpMessager.Sending.Arriving.{
  IsWritten, sender_with, Arrives, send_run-Arrives,
}

-- The ends of the writes of these packets, each with all bytes written.
abbrev pub successes : List Packet → List SendEvent
successes [] = []
successes (p ∷ queue) = write_ends false p.size ∷ successes queue

step_back :
    (m : SlaveMessager) (q r : Packet) (queue started : List Packet)
    → send_step (write_ends false q.size) (sender_with m true (q ∷ r ∷ queue) (some q) started)
      ≡ ok (sender_with m true (r ∷ queue) (some r) (started ++ r ∷ []))
unfolding send_step written dequeue begin_writes
step_back m q r queue started = ground arith

drain :
    (m : SlaveMessager) (queue started : List Packet)
    → send_run (successes queue) (sender_with m true queue (front queue) started)
      ≡ ok (sender_with m true [] none (started ++ waiting queue))
unfolding send_run send_step written dequeue begin_writes
drain m [] started = simp append-nil
drain m (q ∷ []) started = simp append-nil (ground arith)
drain m (q ∷ r ∷ queue) started =
    rw (step_back m q r queue started) (drain m (r ∷ queue) (started ++ r ∷ []) ∙ simp append_assoc)

-- All that was posted is sent once the writes of the packets in the queue succeed.
abbrev pub IsSent : List Packet → Sender → Type 0
IsSent posted s =
    (t : Sender) × (send_run (successes s.messager.write_packets) s ≡ ok t)
    × (t.started ≡ posted)
    × (t.outstanding ≡ none)
    × (t.messager.write_packets ≡ [])

-- Whatever comes, no write starts, and the queue is not emptied.
abbrev pub IsStuck : Sender → Type 0
IsStuck s =
    (later : List SendEvent)
    → (t : Sender) × (send_run later s ≡ ok t)
      × (t.started ≡ s.started)
      × (in_progress t.messager.write_packets ≡ true)

busy_when_closed :
    (outstanding : Option Packet) (queue : List Packet)
    → IsWritten false outstanding queue
    → in_progress queue ≡ true
busy_when_closed outstanding [] w = absurd w
busy_when_closed outstanding (p ∷ queue) w = refl

module _ (m : SlaveMessager) (queue : List Packet) (outstanding : Option Packet)
    (started : List Packet) where
  open-IsSent :
      (posted : List Packet)
      → started ++ waiting queue ≡ posted
      → outstanding ≡ front queue
      → IsSent posted (sender_with m true queue outstanding started)
  open-IsSent posted kept w = (
    sender_with m true [] none (started ++ waiting queue),
    rw w (drain m queue started),
    kept,
    refl,
    refl,
  )

  closed-IsStuck :
      IsWritten false outstanding queue → IsStuck (sender_with m false queue outstanding started)
  unfolding Arrives
  closed-IsStuck w later =
      let (o, q, out, begun, runs, _, w', stays) =
        send_run-Arrives later m false queue outstanding started w in
      let (closed, same) = stays refl in
      (_, runs, same, busy_when_closed out q (subst (λ b. IsWritten b out q) closed w'))

-- Calls of `write` and ends of writes, failed ones too, may come in any order. Nothing faults, so no write
-- begins while another one is under way, and the packets whose writing has begun, followed by those that
-- wait behind the one at the front, are those that were posted, in their order. Either the socket is
-- open, and if no more packets are posted and the writes that go on succeed, all packets are sent in that
-- order; or a write has failed and closed it, and whatever comes, no other write begins and the queue is
-- never empty.
pub send_run-ends :
    (events : List SendEvent)
    → (s : Sender) × (send_run events idle_sender ≡ ok s)
      × (s.started ++ waiting s.messager.write_packets ≡ posts events)
      × (((s.messager.is_open ≡ true) × IsSent (posts events) s)
          ⊎ ((s.messager.is_open ≡ false) × IsStuck s))
unfolding Arrives
send_run-ends events =
    let (is_open, queue, outstanding, started, runs, kept, w, _) =
      send_run-Arrives events new_slave_messager true [] none [] refl in
    (
      sender_with new_slave_messager is_open queue outstanding started,
      runs,
      kept,
      elim (Bool-cases is_open) [
        | inl open_still ↦ inl (
          open_still,
          rw open_still (
              open-IsSent new_slave_messager queue outstanding started (posts events) kept
                (subst (λ b. IsWritten b outstanding queue) open_still w)),
        )
        | inr closed ↦ inr (
          closed,
          rw closed (
              closed-IsStuck new_slave_messager queue outstanding started
                (subst (λ b. IsWritten b outstanding queue) closed w)),
        )
      ],
    )
