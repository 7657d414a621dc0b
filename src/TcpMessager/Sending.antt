-- ===== src/TcpMessager/Sending.antt =====
-- The sending side of TCPSlaveMessager in src/tcp_messager.cc, over any order of calls of `write` and of
-- writes that end.
pub mod Arriving
pub mod Ends
use group_share_filesystem.Base.{
  ℕ, ◌≡◌, refl, sym, ap, subst, ◌∙◌, Bool, true, false, ◌==◌, ◌⊎◌, inl, inr, Bool-cases, List, [],
  ◌∷◌, ◌++◌, append_assoc, append-nil, Option, none, some, Outcome, ok, fault, assertion, ◌>>=◌,
  arith,
}
use group_share_filesystem.Packet.{Packet}
use group_share_filesystem.TcpMessager.Queue.{enqueue, dequeue, in_progress}
use group_share_filesystem.TcpMessager.Slave.{
  SlaveMessager, Action, start_read, start_write, deliver, disconnected, new_slave_messager, write,
  written,
}

-- The messager, the packet that is being written to the socket, and all whose writing has begun.
pub record Sender : Type 0 where
  pub messager : SlaveMessager
  pub outstanding : Option Packet
  pub started : List Packet

-- A call of `write`, or the end of a write: whether it failed, and the count of bytes written.
pub data SendEvent : Type 0 where
  post : Packet → SendEvent
  write_ends : Bool → ℕ → SendEvent

abbrev pub idle_sender : Sender
idle_sender = record { messager = new_slave_messager; outstanding = none; started = [] }

-- A second write on a socket that is being written to would mix the bytes: it is a fault here.
begin_write : Packet → Sender → Outcome Sender
begin_write p s = elim s.outstanding [
  | none ↦ ok (record s { outstanding = some p; started = s.started ++ p ∷ [] })
  | some q ↦ fault assertion
]

unfoldable pub begin_writes : List Action → Sender → Outcome Sender
unfolding begin_write
begin_writes [] s = ok s
begin_writes (start_write p ∷ actions) s = begin_write p s >>= begin_writes actions
begin_writes (start_read n ∷ actions) s = begin_writes actions s
begin_writes (deliver p ∷ actions) s = begin_writes actions s
begin_writes (disconnected ∷ actions) s = begin_writes actions s

-- The write that is under way, if any, ends.
end_write : Bool → ℕ → Option Packet → Sender → Outcome Sender
end_write ec count none s = ok s
end_write ec count (some p) s = do
  (m, actions) ← written ec count s.messager
  begin_writes actions (record s { messager = m; outstanding = none })

unfoldable pub send_step : SendEvent → Sender → Outcome Sender
unfolding end_write
send_step (post p) s =
    let (m, actions) = write p s.messager in begin_writes actions (record s { messager = m })
send_step (write_ends ec count) s = end_write ec count s.outstanding s

unfoldable pub send_run : List SendEvent → Sender → Outcome Sender
unfolding send_step
send_run [] s = ok s
send_run (e ∷ events) s = send_step e s >>= send_run events

-- The packets of the calls of `write`, in their order.
abbrev pub posts : List SendEvent → List Packet
posts [] = []
posts (post p ∷ events) = p ∷ posts events
posts (write_ends ec count ∷ events) = posts events

abbrev pub front : List Packet → Option Packet
front [] = none
front (p ∷ queue) = some p

-- All of a queue but its front, which is being written.
abbrev pub waiting : List Packet → List Packet
waiting [] = []
waiting (p ∷ queue) = queue
