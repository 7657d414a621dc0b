-- ===== src/TcpMessager/Slave/Events.antt =====
-- The handlers of TCPSlaveMessager in src/tcp_messager.cc over any row of events: of the connection and
-- the reads that follow it one operation at most is under way, and of the writes one at most.
use group_share_filesystem.Base.{
  ℕ, suc, ◌≡◌, refl, Bool, Bytes, List, [], ◌∷◌, ◌++◌, Option, none, some, Outcome, ok, ◌>>=◌,
}
use group_share_filesystem.Packet.{Packet}
use group_share_filesystem.TcpMessager.Slave.{
  SlaveMessager, Reading, idle, connecting, header, body, Action, start_read, start_write, deliver,
  disconnected, starts, new_slave_messager, do_connect, connected, header_read, body_read, write,
  written,
}

-- How often the owner is told that the connection is gone.
abbrev pub told : List Action → ℕ
told [] = 0
told (disconnected ∷ actions) = suc (told actions)
told (start_read n ∷ actions) = told actions
told (start_write p ∷ actions) = told actions
told (deliver p ∷ actions) = told actions

pub told-starts : (packets : List Packet) → told (starts packets) ≡ 0
told-starts [] = refl
told-starts (p ∷ packets) = told-starts packets

-- The packets that the owner is given.
abbrev pub deliveries : List Action → List Packet
deliveries [] = []
deliveries (deliver p ∷ actions) = p ∷ deliveries actions
deliveries (start_read n ∷ actions) = deliveries actions
deliveries (start_write p ∷ actions) = deliveries actions
deliveries (disconnected ∷ actions) = deliveries actions

-- The messager, and the packet that is being written.
pub record Line : Type 0 where
  pub messager : SlaveMessager
  pub writing : Option Packet

-- `start`, before the first event.
abbrev pub started_line : Line
started_line = record { messager = do_connect new_slave_messager; writing = none }

-- The connection or the read that is under way ends, the function that `write` has posted runs, or the
-- write that is under way ends.
pub data Event : Type 0 where
  read_ends : Bool → Bytes → Event
  posts : Packet → Event
  write_ends : Bool → ℕ → Event

-- What ends calls its own handler.
unfoldable pub end_reading :
    Reading → Bool → Bytes → SlaveMessager → Outcome (SlaveMessager × List Action)
end_reading idle ec buffer m = ok (m, [])
end_reading connecting ec buffer m = ok (connected ec m)
end_reading header ec buffer m = header_read ec buffer m
end_reading body ec buffer m = body_read ec buffer m

-- The packet whose write starts, if one does.
abbrev pub begun : List Action → Option Packet
begun [] = none
begun (start_write p ∷ actions) = some p
begun (start_read n ∷ actions) = begun actions
begun (deliver p ∷ actions) = begun actions
begun (disconnected ∷ actions) = begun actions

-- What is being written after a handler: the packet whose write starts, or else the one from before.
abbrev pub still_writing : Option Packet → Option Packet → Option Packet
still_writing none before = before
still_writing (some p) before = some p

-- The end of a write that is under way.
unfoldable pub end_writing : Option Packet → Bool → ℕ → Line → Outcome (Line × List Action)
end_writing none ec count l = ok (l, [])
end_writing (some p) ec count l = do
  (m, actions) ← written ec count l.messager
  ok (record { messager = m; writing = begun actions }, actions)

unfoldable pub step : Event → Line → Outcome (Line × List Action)
unfolding end_reading end_writing
step (read_ends ec buffer) l = do
  (m, actions) ← end_reading l.messager.reading ec buffer l.messager
  ok (record l { messager = m }, actions)
step (posts p) l =
    let (m, actions) = write p l.messager in
    ok (record { messager = m; writing = still_writing (begun actions) l.writing }, actions)
step (write_ends ec count) l = end_writing l.writing ec count l

-- A row of events, with all that they start and call.
unfoldable pub run : List Event → Line → Outcome (Line × List Action)
unfolding step
run [] l = ok (l, [])
run (event ∷ events) l = step event l >>= λ r. run events r.0 >>= λ s. ok (s.0, r.1 ++ s.1)
