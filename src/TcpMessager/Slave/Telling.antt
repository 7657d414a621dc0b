-- ===== src/TcpMessager/Slave/Telling.antt =====
-- What TCPSlaveMessager in src/tcp_messager.cc tells its owner at each event.
use group_share_filesystem.Base.{
  ℕ, ◌+◌, ◌≡◌, refl, ◌∙◌, Bool, Bytes, List, [], ◌∷◌, Option, none, some, Outcome, ok, arith,
}
use group_share_filesystem.Packet.{Packet}
use group_share_filesystem.TcpMessager.Queue.{enqueue}
use group_share_filesystem.TcpMessager.Slave.{SlaveMessager, idle, Action, write}
use group_share_filesystem.TcpMessager.Slave.Events.{
  told, deliveries, Line, Event, read_ends, posts, write_ends, end_reading, end_writing, step,
}
use group_share_filesystem.TcpMessager.Slave.Ending.{
  over, HasFront, EndsReading, EndsWriting, with_queue, end_reading-EndsReading,
  end_writing-EndsWriting,
}

-- A line whose reading is over stays so, and gives the owner no packet.
unfoldable pub StaysIdle : Line → Line → List Action → Type 0
StaysIdle l l' actions =
    l.messager.reading ≡ idle → (l'.messager.reading ≡ idle) × (deliveries actions ≡ [])

-- No event faults, and the owner is told once when the reading ends and once when the writing does.
abbrev pub Tells : Line → Outcome (Line × List Action) → Type 0
Tells l outcome =
    (l' : Line) × (actions : List Action) × (outcome ≡ ok (l', actions))
    × HasFront l'
    × StaysIdle l l' actions
    × (told actions + over l ≡ over l')

step_reading-Tells :
    (ec : Bool) (buffer : Bytes) (l : Line) → HasFront l → Tells l (step (read_ends ec buffer) l)
unfolding EndsReading StaysIdle step end_reading
step_reading-Tells ec buffer l front =
    let (m', actions, ends, same, quiet, count) =
      end_reading-EndsReading l.messager.reading ec buffer l.messager refl in
    (
      record l { messager = m' },
      actions,
      rw ends refl,
      rw same front,
      quiet,
      rw same (omega (arith, count)),
    )

step_posting-Tells :
    (p : Packet) (m : SlaveMessager) (queue : List Packet) (writing : Option Packet)
    → HasFront (with_queue m queue writing)
    → Tells (with_queue m queue writing) (step (posts p) (with_queue m queue writing))
unfolding StaysIdle step write enqueue
step_posting-Tells p m [] (some w) front = absurd front
step_posting-Tells p m [] none front = (_, _, refl, refl, λ is_idle. (is_idle, refl), omega arith)
step_posting-Tells p m (q ∷ queue) (some w) front =
    (_, _, refl, front, λ is_idle. (is_idle, refl), omega arith)
step_posting-Tells p m (q ∷ queue) none front =
    (_, _, refl, tt, λ is_idle. (is_idle, refl), omega arith)

step_writing-Tells :
    (ec : Bool) (count : ℕ) (m : SlaveMessager) (queue : List Packet) (writing : Option Packet)
    → HasFront (with_queue m queue writing)
    → Tells (with_queue m queue writing) (step (write_ends ec count) (with_queue m queue writing))
unfolding EndsWriting StaysIdle step end_writing
step_writing-Tells ec count m queue none front =
    (_, _, refl, front, λ is_idle. (is_idle, refl), omega arith)
step_writing-Tells ec count m [] (some w) front = absurd front
step_writing-Tells ec count m (p ∷ queue) (some w) front =
    let (l', actions, ends, front', same, silent, count') =
      end_writing-EndsWriting ec count m p queue in
    (
      l',
      actions,
      ends,
      front',
      λ is_idle. (same ∙ is_idle, silent),
      rw same (omega (arith, count')),
    )

pub step-Tells : (event : Event) (l : Line) → HasFront l → Tells l (step event l)
step-Tells (read_ends ec buffer) l front = step_reading-Tells ec buffer l front
step-Tells (posts p) l front =
    step_posting-Tells p l.messager l.messager.write_packets l.writing front
step-Tells (write_ends ec count) l front =
    step_writing-Tells ec count l.messager l.messager.write_packets l.writing front
